-- ===== src/Cycle/Unhealthy.antt =====
-- `process_unhealthy_cluster` of patroni/ha.py: the cluster has no leader key.
use patroni.Base.{
  ◌+◌, ◌-◌, ℕ, Bool, true, false, not, ◌&&◌, ◌||◌, none, some, List, [], ◌∷◌, ltb, ◌==◌,
  if◌then◌else◌,
}
use patroni.Dcs.SyncState.{truthy}
use patroni.Ha.State.{Ha, requested}
use patroni.Ha.Manual.{Write}
use patroni.Ha.Healthiest.{is_healthiest_node}
use patroni.Cycle.Exec.{pure, gets, modify, ◌>>=◌, ◌>>◌}
use patroni.Cycle.Node.{
  Call, Event, Message, Node, Question, Reading, Observation, World, M, next, ask, read, perform,
  when,
}
use patroni.Cycle.Lock.{acquire_lock, load_cluster_from_dcs}
use patroni.Cycle.Follow.{follow}
use patroni.Cycle.Primary.{clear_failover_key, enforce_follow_remote_member, enforce_primary_role}

unfoldable pub names_candidate : Node → Bool
names_candidate s = requested s.ha.cluster.failover && truthy s.ha.cluster.failover.candidate

-- The race may be put off, `primary_race_backoff`.
unfoldable pub may_back_off : World → Node → Bool
may_back_off w s =
    not s.ha.is_paused
    && not s.ha.is_standby_cluster
    && not (names_candidate s)
    && ltb 0 w.settings.primary_race_backoff
    && elim s.prev_wal_lsn [ none ↦ false | some _ ↦ true ]

unfoldable pub start_backoff : ℕ → Node → Node
start_backoff now s =
    if s.primary_race_backoff_timestamp == 0
    then record s { primary_race_backoff_timestamp = now }
    else s

-- The position moved, and the time is not over; or `loop_wait` has not passed since its start.
unfoldable pub backs_off : World → ℕ → Bool → ℕ → Node → Bool
backs_off w now streams lsn s =
    let start = s.primary_race_backoff_timestamp in
    ltb now (start + w.settings.primary_race_backoff)
      && streams
      && elim s.prev_wal_lsn [ none ↦ false | some previous ↦ ltb previous lsn ]
    || ltb now (start + w.settings.loop_wait)

-- Whether the race is put off.
unfoldable pub back_off : World → M Bool
back_off w = do
  started ← read w Reading.time
  modify (start_backoff started)
  now ← read w Reading.time
  streams ← ask w Question.streams
  lsn ← read w Reading.wal_position
  gets (backs_off w now streams lsn)

-- The node as `is_healthiest_node` sees it.
unfoldable pub observed : Observation → Bool → Ha → Ha
observed o backing_off ha = record ha {
  last_operation = o.last_operation;
  replica_timeline = o.replica_timeline;
  primary_timeline = o.primary_timeline;
  is_starting = o.is_starting;
  is_primary = o.is_primary;
  watchdog_is_healthy = o.watchdog_is_healthy;
  failsafe = o.failsafe;
  backing_off = backing_off;
}

unfoldable pub write_all : World → List Write → M (Unit {0})
write_all w [] = pure tt
write_all w (Write.clear_failover_key ∷ writes) = do clear_failover_key w; write_all w writes

-- `self.is_healthiest_node()`; after a failed pre-promote script the node waits for `ttl`.
unfoldable pub asks_healthiest : World → M Bool
asks_healthiest w = do
  now ← read w Reading.time
  n ← next
  let view = λ (s : Node).
      observed (w.observe n) (ltb (now - s.released_leader_key_timestamp) w.settings.ttl) s.ha
  result ← gets (λ s. is_healthiest_node (w.nodes n) (view s))
  modify (λ s. record s { ha = result.1 })
  write_all w result.2
  pure result.0

-- The failover key after the lock is acquired.
unfoldable pub settle_failover_key : World → M (Unit {0})
settle_failover_key w = do
  set ← gets (λ s. requested s.ha.cluster.failover)
  kept ← gets (λ s.
      s.ha.is_paused
      && truthy s.ha.cluster.failover.leader
      && truthy s.ha.cluster.failover.candidate)
  when set
      (perform w (Event.call (if kept then Call.update_failover_key else Call.clear_failover_key)))

unfoldable pub win_race : World → M Message
win_race w = do
  settle_failover_key w
  load_cluster_from_dcs w
  standby_cluster ← gets (λ s. s.ha.is_standby_cluster)
  if standby_cluster
      then enforce_follow_remote_member w Message.promoted_to_standby_leader
      else enforce_primary_role w Message.acquired_session_lock_as_a_leader
          Message.promoted_by_acquiring_session_lock

unfoldable pub race : World → M Message
race w = do
  acquired ← acquire_lock w
  if acquired
      then win_race w
      else follow w Message.demoted_after_failing_to_obtain_lock
          Message.following_new_leader_after_failing_to_obtain_lock true

-- The new leader need not be ahead of this node.
unfoldable pub may_be_ahead : Node → Bool
may_be_ahead s = names_candidate s || s.ha.nofailover && not s.ha.is_paused

unfoldable pub not_the_healthiest : World → M Message
not_the_healthiest w = do
  ahead ← gets may_be_ahead
  when ahead (perform w (Event.call Call.trigger_check_diverged_lsn))
  nofailover ← gets (λ s. s.ha.nofailover)
  if nofailover
      then follow w Message.demoting_not_allowed_to_become_primary
          Message.following_not_allowed_to_promote true
      else follow w Message.demoting_not_the_healthiest Message.following_not_the_healthiest true

unfoldable pub race_if_healthiest : World → M Message
race_if_healthiest w = do
  healthiest ← asks_healthiest w
  if healthiest then race w else not_the_healthiest w

unfoldable pub race_unless_backing_off : World → M Message
race_unless_backing_off w = do
  backs ← back_off w
  if backs then pure Message.wal_position_moved else race_if_healthiest w

unfoldable pub process_unhealthy_cluster : World → M Message
process_unhealthy_cluster w = do
  may ← gets (may_back_off w)
  if may then race_unless_backing_off w else race_if_healthiest w
