-- ===== src/Cycle/Follow.antt =====
-- Which node a standby follows, and pg_rewind, in patroni/ha.py: `_get_node_to_follow`,
-- `_handle_crash_recovery`, `_handle_rewind_or_reinitialize`, `follow`.
use patroni.Base.{
  Bool, true, false, not, ◌&&◌, ◌||◌, Option, none, some, Text, text_eq, ltb, ◌==◌, if◌then◌else◌,
}
use patroni.Dcs.SyncState.{truthy, or_empty}
use patroni.Ha.State.{Member, Cluster}
use patroni.Ha.Race.{opt_eq}
use patroni.Ha.Manual.{get_member}
use patroni.Cycle.Exec.{pure, gets, modify, ◌>>=◌, ◌>>◌}
use patroni.Cycle.Node.{
  Role, Mode, Action, Call, Event, Message, Node, Question, Reading, World, M, ask, read, perform,
  when, asks_is_primary, asks_is_running, try_run_async, set_role, is_role,
}
use patroni.Cycle.Lock.{is_unlocked, has_lock, is_paused, load_cluster_from_dcs}
use patroni.Cycle.Demote.{demote}

pub data Target : Type 0 where
  nobody remote : Target
  member : Text → Target

unfoldable pub leader_of : Cluster → Target
leader_of c = elim c.leader [ none ↦ nobody | some name ↦ member name ]

-- `cluster.get_member(name)`: the leader, where there is no such member.
unfoldable pub member_or_leader : Cluster → Option Member → Target
unfolding leader_of
member_or_leader c none = leader_of c
member_or_leader c (some m) = member m.name

unfoldable pub not_myself : Text → Target → Target
not_myself name (member m) = if text_eq m name then nobody else member m
not_myself name t = t

unfoldable pub get_node_to_follow : World → Node → Target
unfolding member_or_leader leader_of not_myself
get_node_to_follow w s =
    let c = s.ha.cluster in
    if w.settings.nostream
    then nobody
    else if s.ha.is_standby_cluster
        && (truthy c.leader && has_lock s || is_unlocked c && not s.ha.is_paused)
    then remote
    else if truthy w.settings.replicatefrom
        && not (opt_eq w.settings.replicatefrom (some s.ha.name))
    then not_myself s.ha.name
        (member_or_leader c (get_member c.members (or_empty w.settings.replicatefrom)))
    else if truthy c.leader
    then not_myself s.ha.name (leader_of c)
    else nobody

-- `try_run_async(action, ...) or msg`
unfoldable pub run_or_wait : Action → Option Action → M Message
run_or_wait action none = pure (Message.started action)
run_or_wait action (some previous) = pure (Message.in_progress previous)

unfoldable pub starts : Action → M Message
starts action = do previous ← try_run_async action; run_or_wait action previous

-- `return msg`
unfoldable pub returns : M Message → M (Option Message)
returns m = do msg ← m; pure (some msg)

unfoldable pub needs_crash_recovery : Bool → Node → Bool
needs_crash_recovery can_rewind s =
    s.crash_recovery_started == 0 && (is_unlocked s.ha.cluster || can_rewind)

unfoldable pub handle_crash_recovery : World → M (Option Message)
handle_crash_recovery w = do
  can_rewind ← ask w Question.can_rewind
  needed ← gets (needs_crash_recovery can_rewind)
  if needed
      then (do
        now ← read w Reading.time
        modify (λ s. record s { crash_recovery_started = now })
        returns (starts Action.crash_recovery))
      else pure none

-- The crash recovery before pg_rewind, if PostgreSQL was not shut down cleanly.
unfoldable pub recovery_before_rewind : World → Bool → M (Option Message)
recovery_before_rewind w running = do
  in_archive_recovery ← ask w Question.controldata_is_in_archive_recovery
  if not running && in_archive_recovery then handle_crash_recovery w else pure none

unfoldable pub or_rewind : Option Message → M (Option Message)
or_rewind (some msg) = pure (some msg)
or_rewind none = returns (starts Action.pg_rewind)

unfoldable pub rewind_or_reinitialize : World → Bool → M (Option Message)
rewind_or_reinitialize w true = do
  running ← asks_is_running w
  msg ← recovery_before_rewind w running
  or_rewind msg
rewind_or_reinitialize w false = do
  should_remove ← ask w Question.should_remove_data_directory
  standby_cluster ← gets (λ s. s.ha.is_standby_cluster)
  if should_remove && not standby_cluster then returns (starts Action.reinitializing) else pure none

unfoldable pub has_leader_to_rewind : Node → Bool
has_leader_to_rewind s =
    s.ha.is_standby_cluster || elim s.ha.cluster.leader [ none ↦ false | some _ ↦ true ]

unfoldable pub handle_rewind_or_reinitialize : World → M (Option Message)
handle_rewind_or_reinitialize w = do
  needed ← ask w Question.rewind_needed_and_possible
  has_leader ← gets has_leader_to_rewind
  if not needed || not has_leader
      then pure none
      else do can_rewind ← ask w Question.can_rewind; rewind_or_reinitialize w can_rewind

-- A message that is returned, or what comes next.
unfoldable pub or_else : Option Message → M Message → M Message
or_else (some msg) m = pure msg
or_else none m = m

unfoldable pub is_remote : Target → Bool
is_remote remote = true
is_remote _ = false

unfoldable pub is_nobody : Target → Bool
is_nobody nobody = true
is_nobody _ = false

-- The role in which the node follows its target.
unfoldable pub role_to_follow : Target → Node → Role
role_to_follow target s =
    if is_remote target && has_lock s then Role.standby_leader else Role.replica

-- The timeline on which this node is, is older than the one of the leader.
unfoldable pub is_behind_leader : Node → Bool
is_behind_leader s = elim s.ha.last_timeline [
  | none ↦ false
  | some mine ↦ elim s.leader_timeline [
    | none ↦ false
    | some theirs ↦ ltb 0 mine && ltb 0 theirs && ltb mine theirs
  ]
]

unfoldable pub become_standby_leader : World → Role → M (Unit {0})
become_standby_leader w role = do
  changes ← gets (λ s. is_role role Role.standby_leader && not (is_role s.role role))
  when changes (set_role role >> perform w (Event.call Call.call_nowait))

-- `recovery.conf` is right: only the timelines are compared.
unfoldable pub keep_following : World → Role → Message → M Message
keep_following w role follow_reason = do
  become_standby_leader w role
  behind ← gets is_behind_leader
  if behind
      then (do
        perform w (Event.call Call.trigger_check_diverged_lsn)
        msg ← handle_rewind_or_reinitialize w
        or_else msg (pure follow_reason))
      else pure follow_reason

unfoldable pub change_recovery_conf : World → Role → Message → M Message
change_recovery_conf w role follow_reason = do
  restart ← ask w Question.restart_required
  if restart
      then (do try_run_async Action.changing_primary_conninfo; pure tt)
      else perform w (Event.follow role)
  perform w (Event.call Call.trigger_check_diverged_lsn)
  pure follow_reason

-- The end of `follow`: the node is a standby, and needs no pg_rewind.
unfoldable pub follow_target : World → Target → Message → M Message
follow_target w target follow_reason = do
  paused ← gets is_paused
  when (not paused) (perform w (Event.call Call.handle_parameter_change))
  role ← gets (role_to_follow target)
  has_conn_url ← ask w Question.remote_member_has_conn_url
  standby_cluster ← gets (λ s. s.ha.is_standby_cluster)
  if standby_cluster && is_role role Role.replica && (is_nobody target || not has_conn_url)
      then pure Message.continue_following_old_standby_leader
      else do
        change_required ← ask w Question.recovery_conf_change_required
        if change_required
            then change_recovery_conf w role follow_reason
            else keep_following w role follow_reason

unfoldable pub leader_has_timeline : Node → Bool
leader_has_timeline s = elim s.leader_timeline [ none ↦ false | some t ↦ ltb 0 t ]

-- `follow` after its checks of the pause and of the primary.
unfoldable pub follow_as_standby : World → Target → Message → M Message
follow_as_standby w target follow_reason = do
  checks ← gets (λ s. s.ha.is_standby_cluster && leader_has_timeline s)
  has_history ← ask w Question.has_history
  when (checks && has_history) (perform w (Event.call Call.trigger_check_diverged_lsn))
  msg ← handle_rewind_or_reinitialize w
  or_else msg (follow_target w target follow_reason)

unfoldable pub demote_to_follow : World → Message → M Message
demote_to_follow w demote_reason = do
  standby_cluster ← gets (λ s. s.ha.is_standby_cluster)
  if standby_cluster
      then (do try_run_async Action.demoting_to_standby_cluster; pure tt)
      else demote w Mode.immediate_nolock
  pure demote_reason

-- In pause, without the need of pg_rewind.
unfoldable pub follow_in_pause : World → Bool → Target → Message → M Message
follow_in_pause w true target follow_reason = do
  set_role Role.primary
  pure Message.continue_as_primary_without_lock
follow_in_pause w false target follow_reason = do
  standby_leader ← gets (λ s. is_role s.role Role.standby_leader)
  when (not standby_leader) (set_role Role.replica)
  if is_nobody target then pure Message.no_action_i_am else follow_as_standby w target follow_reason

unfoldable pub follow_paused : World → Bool → Target → Message → M Message
follow_paused w primary target follow_reason = do
  needed ← ask w Question.rewind_is_needed
  allowed ← ask w Question.rewind_can_rewind_or_reinitialize_allowed
  unlocked ← gets (λ s. is_unlocked s.ha.cluster)
  if not (needed && allowed) || unlocked
      then follow_in_pause w primary target follow_reason
      else follow_as_standby w target follow_reason

unfoldable pub follow_unpaused : World → Bool → Target → Message → Message → M Message
follow_unpaused w true target demote_reason follow_reason = demote_to_follow w demote_reason
follow_unpaused w false target demote_reason follow_reason =
    follow_as_standby w target follow_reason

unfoldable pub follow : World → Message → Message → Bool → M Message
follow w demote_reason follow_reason refresh = do
  when refresh (load_cluster_from_dcs w)
  primary ← asks_is_primary w
  target ← gets (get_node_to_follow w)
  paused ← gets is_paused
  if paused
      then follow_paused w primary target follow_reason
      else follow_unpaused w primary target demote_reason follow_reason
