-- ===== src/Cycle/Lock.antt =====
-- The leader key in patroni/ha.py: reading the cluster, taking, updating and deleting the key, and
-- what the member publishes of itself.
use patroni.Base.{
  ◌+◌, ℕ, Bool, true, false, not, ◌&&◌, ◌||◌, Option, none, some, [], ltb, ◌==◌, if◌then◌else◌,
}
use patroni.Dcs.SyncState.{truthy}
use patroni.Ha.State.{Cluster}
use patroni.Ha.Race.{opt_eq}
use patroni.Cycle.Exec.{Error, Result, ok, err, pure, raise, gets, modify, ◌>>=◌, ◌>>◌}
use patroni.Cycle.Node.{
  Role, PostgresState, Action, Call, Event, Failsafe, Node, Question, Reading, View, World, M, next,
  ask, read, log, perform, lift, when,
}

-- `Cluster.is_unlocked`
unfoldable pub is_unlocked : Cluster → Bool
is_unlocked c = not (truthy c.leader)

-- `has_lock`
unfoldable pub has_lock : Node → Bool
has_lock s = opt_eq s.ha.cluster.leader (some s.ha.name)

unfoldable pub is_paused : Node → Bool
is_paused s = s.ha.is_paused

-- `is_leader`, at a time.
unfoldable pub is_leader_at : ℕ → Node → Bool
is_leader_at now s = ltb now s.leader_expiry

unfoldable pub is_leader : World → M Bool
is_leader w = do now ← read w Reading.time; gets (is_leader_at now)

unfoldable pub set_expiry : ℕ → M (Unit {0})
set_expiry t = modify (λ s. record s { leader_expiry = t })

unfoldable pub set_is_leader : World → Bool → M (Unit {0})
set_is_leader w true = do now ← read w Reading.time; set_expiry (now + w.settings.ttl)
set_is_leader w false = set_expiry 0

-- `Failsafe.is_active`
unfoldable pub failsafe_is_active_at : World → ℕ → Node → Bool
failsafe_is_active_at w now s = ltb now (s.failsafe.last_update + w.settings.ttl)

unfoldable pub failsafe_is_active : World → M Bool
failsafe_is_active w = do now ← read w Reading.time; gets (failsafe_is_active_at w now)

-- `Failsafe.set_is_active`
unfoldable pub set_failsafe : ℕ → Failsafe → Failsafe
set_failsafe value f =
    if value == 0
    then record { last_update = 0; leader_name = [] }
    else record f { last_update = value }

unfoldable pub failsafe_set_is_active : ℕ → M (Unit {0})
failsafe_set_is_active value = modify (λ s. record s { failsafe = set_failsafe value s.failsafe })

-- `Failsafe.update_cluster`, as far as the leader: the real leader, if there was a ping from it. It
-- publishes no timeline.
unfoldable pub inject_leader : Node → Node
inject_leader s = record s {
  ha = record s.ha { cluster = record s.ha.cluster { leader = some s.failsafe.leader_name } };
  leader_timeline = none;
}

unfoldable pub update_cluster : World → M (Unit {0})
update_cluster w = do active ← failsafe_is_active w; when active (modify inject_leader)

-- The cluster that was read, and the old one: the last one that was healthy.
unfoldable pub remember : View → Node → Node
remember v s =
    let s' : Node = record s {
      ha = record s.ha { cluster = v.cluster };
      cluster_config = v.config;
      has_config = v.has_config;
      leader_timeline = if is_unlocked v.cluster then none else v.leader_timeline;
    } in
    if not (is_unlocked v.cluster) || s.old_is_empty
    then record s' {
      ha = record s'.ha { old_members = v.cluster.members; old_leader = v.cluster.leader };
      old_is_empty = v.is_empty;
    }
    else s'

unfoldable pub reset_backoff : Node → Node
reset_backoff s =
    if is_unlocked s.ha.cluster then s else record s { primary_race_backoff_timestamp = 0 }

unfoldable pub injects : Node → Bool
injects s = is_unlocked s.ha.cluster && s.ha.is_failsafe_mode

unfoldable pub load_cluster_from_dcs : World → M (Unit {0})
load_cluster_from_dcs w = do
  n ← next
  v ← lift (w.get_cluster n)
  modify (remember v)
  inject ← gets injects
  when inject (update_cluster w)
  modify reset_backoff
  mine ← gets has_lock
  when (not mine) (set_is_leader w false)

-- `try: ... except DCSError: raise; except Exception: ret = False`
unfoldable pub answered : Result Bool → M Bool
answered (ok b) = pure b
answered (err Error.dcs_error) = raise Error.dcs_error
answered (err Error.exit) = raise Error.exit
answered (err _) = pure false

unfoldable pub acquire_lock : World → M Bool
acquire_lock w = do
  n ← next
  ret ← answered (w.lock n)
  log (Event.acquire_leader_lock ret)
  set_is_leader w ret
  pure ret

-- The position for the `/status` key; an exception is logged.
unfoldable pub remember_position : World → M (Unit {0})
remember_position w = do
  lsn ← read w Reading.wal_position
  succeeded ← ask w Question.reading_succeeds
  when succeeded (modify (λ s. record s { last_wal_lsn = some lsn }))

unfoldable pub update_lock : World → Bool → M Bool
update_lock w update_status = do
  when update_status (remember_position w)
  n ← next
  ret ← answered (w.lock n)
  log (Event.update_leader ret)
  set_is_leader w ret
  when ret (perform w (Event.call Call.watchdog_keepalive))
  pure ret

-- The timeline of this node, if it is a standby.
unfoldable pub standby_timeline : World → Node → M ℕ
standby_timeline w s = do
  received ← read w Reading.received_timeline
  control ← read w Reading.pg_control_timeline
  cached ← read w Reading.replica_cached_timeline
  pure (
      if ltb 0 received
      then received
      else elim s.role [ Role.standby_leader ↦ control | _ ↦ cached ])

unfoldable pub remember_timeline : ℕ → Node → Node
remember_timeline timeline s =
    if ltb 0 timeline then record s { ha = record s.ha { last_timeline = some timeline } } else s

unfoldable pub publish_standby : World → M (Unit {0})
publish_standby w = do
  s ← gets (λ s. s)
  timeline ← standby_timeline w s
  modify (remember_timeline timeline)

-- The positions and the timeline that the member publishes; exceptions are ignored.
unfoldable pub publish_position : World → M (Unit {0})
publish_position w = do
  timeline ← read w Reading.primary_timeline
  lsn ← read w Reading.wal_position
  succeeded ← ask w Question.reading_succeeds
  when succeeded (
      modify (λ s. record s { last_wal_lsn = some lsn })
      >> when (timeline == 0) (publish_standby w))

unfoldable pub is_up : PostgresState → Bool
is_up PostgresState.running = true
is_up PostgresState.restarting = true
is_up PostgresState.starting = true
is_up _ = false

unfoldable pub lets_publish : Option Action → Bool
lets_publish none = true
lets_publish (some Action.promote) = true
lets_publish (some _) = false

unfoldable pub is_running_primary : PostgresState × Role → Bool
is_running_primary (PostgresState.running, Role.primary) = true
is_running_primary _ = false

-- The member runs as a primary for the first time.
unfoldable pub is_new_primary : Node → Bool
is_new_primary s =
    is_running_primary (s.state, s.role)
    && not (elim s.last_state [ none ↦ false | some last ↦ is_running_primary last ])

unfoldable pub notice_promotion : World → M (Unit {0})
notice_promotion w = do
  promotion ← gets is_new_primary
  when promotion (perform w (Event.call Call.notify_mpp_coordinator))
  modify (λ s. record s { last_state = some (s.state, s.role) })

unfoldable pub touch_member : World → M Bool
touch_member w = do
  publishes ← gets (λ s. lets_publish s.scheduled_action && is_up s.state)
  when publishes (publish_position w)
  perform w (Event.call Call.touch_member)
  ret ← ask w Question.touch_member_succeeds
  when ret (notice_promotion w)
  pure ret

-- `_delete_leader`
unfoldable pub forget_leader : World → M (Unit {0})
forget_leader w = do
  set_is_leader w false
  paused ← gets is_paused
  perform w (Event.delete_leader paused)

unfoldable pub release_leader_key_voluntarily : World → M (Unit {0})
release_leader_key_voluntarily w = do forget_leader w; touch_member w; pure tt
