-- ===== src/Ha/Healthiest.antt =====
-- `is_healthiest_node` of patroni/ha.py.
pub mod Synchronous
use patroni.Base.{
  Bool, true, false, not, ◌&&◌, ◌||◌, Option, none, some, List, [], ◌∷◌, ◌++◌, map, foldl, Text,
  text_eq, ltb, null, select, any, if◌then◌else◌,
}
use patroni.Dcs.SyncState
use patroni.Dcs.SyncState.{truthy}
use patroni.Ha.State.{Member, requested, Ha, Env, sync_mode_is_active}
use patroni.Ha.Race.{opt_eq}
use patroni.Ha.Manual.{Write, Outcome, run_race, not_synchronous, manual_failover_process_no_leader}

-- `{m.name: m for m in members}`: a later member replaces an earlier one of the same name.
unfoldable pub put_member : List Member → Member → List Member
put_member [] m = m ∷ []
put_member (u ∷ us) m =
    let rest = u ∷ put_member us m in if text_eq u.name m.name then m ∷ us else rest

unfoldable pub by_name : List Member → List Member
unfolding put_member
by_name members = foldl put_member [] members

-- `RemoteMember(name, {'api_url': url})`
abbrev pub remote_member : Text × Text → Member
remote_member (name, url) = record {
  name = name;
  api_url = some url;
  nofailover = false;
  site = none;
}

-- The keys of the `/failsafe` key do not have this node's name.
unfoldable pub missing_in_failsafe : Ha → List (Text × Text) → Bool
missing_in_failsafe ha members =
    not (null members) && not (any (λ entry. text_eq entry.0 ha.name) members)

-- What `all_known_members +=` leaves in the list of the old cluster, `none` where this node is not
-- in the `/failsafe` key.
unfoldable pub all_known_members : Ha → Option (List (Text × Text)) → Option (List Member)
unfolding missing_in_failsafe
all_known_members ha none = some (ha.old_members ++ ha.cluster.members)
all_known_members ha (some members) =
    if not ha.is_failsafe_mode
    then some (ha.old_members ++ ha.cluster.members)
    else if missing_in_failsafe ha members
    then none
    else some (ha.old_members ++ map remote_member members ++ ha.cluster.members)

-- The race among the known members: the synchronous ones in synchronous mode.
unfoldable pub race_known : Env → Ha → Option (List Member) → Outcome Bool
race_known env ha none = (false, ha, [])
race_known env ha (some known) =
    let ha' : Ha = record ha { old_members = known } in
    if not_synchronous ha
    then (false, ha', [])
    else run_race env ha'
        (by_name (
          if sync_mode_is_active ha
          then select (λ m. SyncState.matches ha.cluster.sync (some m.name) true) known
          else known))
        true ha.old_leader

-- A running primary without the leader key.
unfoldable pub primary_is_healthiest : Ha → Bool
primary_is_healthiest ha =
    if ha.is_paused
    then not (truthy ha.cluster.initialize) || opt_eq (some ha.sysid) ha.cluster.initialize
    else not (ltb ha.primary_timeline ha.cluster.timeline)

-- `self.manual_failover_process_no_leader() or False`
unfoldable pub or_false : Outcome (Option Bool) → Outcome Bool
or_false (some b, ha, w) = (b, ha, w)
or_false (none, ha, w) = (false, ha, w)

-- A failover or switchover is requested.
unfoldable pub process_failover : Env → Ha → Outcome Bool
unfolding or_false
process_failover env ha =
    if truthy ha.cluster.failover.leader
      && sync_mode_is_active ha
      && not (SyncState.matches ha.cluster.sync (some ha.name) true)
    then (false, ha, [])
    else or_false (manual_failover_process_no_leader env ha)

unfoldable pub replica_is_healthiest : Env → Ha → Outcome Bool
replica_is_healthiest env ha =
    if ha.is_paused || ha.nofailover
    then (false, ha, [])
    else if requested ha.cluster.failover
    then process_failover env ha
    else if not ha.watchdog_is_healthy
    then (false, ha, [])
    else race_known env ha (all_known_members ha ha.failsafe)

-- What follows the manual failover in pause.
unfoldable pub check_node : Env → Ha → Outcome Bool
check_node env ha =
    if ha.is_starting
    then (false, ha, [])
    else if ha.is_primary
    then (primary_is_healthiest ha, ha, [])
    else replica_is_healthiest env ha

is_unscheduled : Ha → Bool
is_unscheduled ha = elim ha.cluster.failover.scheduled_at [ none ↦ true | some _ ↦ false ]

-- The answer of the manual failover in pause, or, without one, that of the checks after it.
unfoldable pub continue_unless_answered : Env → Outcome (Option Bool) → Outcome Bool
continue_unless_answered env (some b, ha, w) = (b, ha, w)
continue_unless_answered env (none, ha, w) =
    let (b, ha', w') = check_node env ha in (b, ha', w ++ w')

unfoldable pub is_healthiest_node : Env → Ha → Outcome Bool
unfolding is_unscheduled continue_unless_answered
is_healthiest_node env ha =
    if ha.backing_off
    then (false, ha, [])
    else if ha.is_paused && not ha.nofailover && requested ha.cluster.failover && is_unscheduled ha
    then continue_unless_answered env (manual_failover_process_no_leader env ha)
    else check_node env ha
