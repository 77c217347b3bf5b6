-- ===== src/Cycle/Primary.antt =====
-- What the holder of the leader key does in patroni/ha.py: `enforce_primary_role`,
-- `enforce_follow_remote_member`, `should_run_scheduled_action`,
-- `process_manual_failover_from_leader`, `process_healthy_cluster`.
use patroni.Base.{
  ◌+◌, ◌*◌, ◌/◌, ltb, ℕ, Bool, true, false, not, ◌&&◌, ◌||◌, Option, none, some, if◌then◌else◌,
}
use patroni.Async.{fresh_task}
use patroni.Dcs.SyncState.{truthy}
use patroni.Ha.State.{requested}
use patroni.Ha.Race.{opt_eq}
use patroni.Ha.Multisync.{Preparation, process_sync_replication_prepromote}
use patroni.Cycle.Exec.{pure, gets, modify, ◌>>=◌, ◌>>◌}
use patroni.Cycle.Node.{
  Role, Mode, Action, Call, Event, Message, Node, Question, Reading, World, M, ask, read, log,
  perform, when, asks_is_primary, try_run_async, set_role, is_role,
}
use patroni.Cycle.Lock.{
  has_lock, is_paused, failsafe_set_is_active, update_lock, forget_leader,
  release_leader_key_voluntarily,
}
use patroni.Cycle.Demote.{demote, asks_failover_possible}
use patroni.Cycle.Follow.{follow}

unfoldable pub enforce_follow_remote_member : World → Message → M Message
enforce_follow_remote_member w message = follow w Message.cannot_be_a_real_primary message true

-- The watchdog runs, or can be activated.
unfoldable pub watchdog_is_ready : World → M Bool
watchdog_is_ready w = do
  running ← ask w Question.watchdog_is_running
  if running then pure true else ask w Question.watchdog_activates

unfoldable pub give_up_without_watchdog : World → Bool → M Message
give_up_without_watchdog w true = do
  demote w Mode.immediate
  pure Message.demoting_because_watchdog_could_not_be_activated
give_up_without_watchdog w false = do
  release_leader_key_voluntarily w
  pure Message.not_promoting_because_watchdog_could_not_be_activated

-- `self._async_response.result is False`
unfoldable pub failed : Node → Bool
failed s = elim s.async_response.result [ none ↦ false | some r ↦ not r ]

unfoldable pub reset_response : M (Unit {0})
reset_response = modify (λ s. record s { async_response = fresh_task })

unfoldable pub cancel_promotion : World → M Message
cancel_promotion w = do
  log Event.pre_promote_failed
  now ← read w Reading.time
  modify (λ s. record s { released_leader_key_timestamp = now })
  release_leader_key_voluntarily w
  reset_response
  pure Message.promotion_cancelled

unfoldable pub is_primary_role : Role → Bool
is_primary_role role = is_role role Role.primary || is_role role Role.promoted

unfoldable pub submit_promotion : World → M (Unit {0})
submit_promotion w = do
  failsafe_set_is_active 0
  modify (λ s. record s { ha = record s.ha { last_timeline = none } })
  reset_response
  try_run_async Action.promote
  pure tt

unfoldable pub is_prepared : Preparation → Bool
is_prepared Preparation.write_failed = false
is_prepared _ = true

-- `process_sync_replication_prepromote`: whether the promotion goes on.
unfoldable pub prepare_synchronous_replication : World → M Bool
prepare_synchronous_replication w = do
  written ← ask w Question.writes_sync_state
  prepared ← gets (λ s.
      is_prepared (
        process_sync_replication_prepromote (λ _ _. written) w.settings.supports_multiple_sync
          s.ha))
  when prepared (perform w (Event.call Call.set_synchronous_standby_names))
  pure prepared

-- The promotion of a standby, once the synchronous replication is prepared.
unfoldable pub promote_standby : World → Message → M Message
promote_standby w promote_message = do
  prepared ← prepare_synchronous_replication w
  if prepared
      then (do submit_promotion w; pure promote_message)
      else pure Message.postponing_promotion

-- The last part of `enforce_primary_role`.
unfoldable pub become_primary : World → Bool → Message → Message → M Message
become_primary w true message promote_message = do
  set_role Role.primary
  perform w (Event.call Call.process_sync_replication)
  perform w (Event.call Call.update_cluster_history)
  perform w (Event.call Call.sync_meta_data)
  pure message
become_primary w false message promote_message = do
  promoting ← gets (λ s. is_primary_role s.role)
  if promoting
      then (do perform w (Event.call Call.process_sync_replication); pure message)
      else promote_standby w promote_message

unfoldable pub ask_and_become_primary : World → Message → Message → M Message
ask_and_become_primary w message promote_message = do
  primary ← asks_is_primary w
  become_primary w primary message promote_message

-- Out of pause: the watchdog, and the result of the pre-promote script.
unfoldable pub check_and_become_primary : World → Message → Message → M Message
check_and_become_primary w message promote_message = do
  ready ← watchdog_is_ready w
  pre_promote_failed ← gets failed
  if not ready
      then (do primary ← asks_is_primary w; give_up_without_watchdog w primary)
      else if pre_promote_failed
      then cancel_promotion w
      else ask_and_become_primary w message promote_message

unfoldable pub enforce_primary_role : World → Message → Message → M Message
enforce_primary_role w message promote_message = do
  paused ← gets is_paused
  if paused
      then ask_and_become_primary w message promote_message
      else check_and_become_primary w message promote_message

-- `should_run_scheduled_action`, with what is done to a stale value. Times are whole seconds.
unfoldable pub should_run_scheduled_action : World → Option ℕ → M (Unit {0}) → M Bool
should_run_scheduled_action w none cleanup_fn = pure false
should_run_scheduled_action w (some at) cleanup_fn = do
  paused ← gets is_paused
  now ← read w Reading.time
  if paused || ltb (now + w.settings.loop_wait) at
      then pure false
      else if ltb (at + w.settings.loop_wait * 3 / 2) now
      then (do cleanup_fn; pure false)
      else pure true

unfoldable pub clear_failover_key : World → M (Unit {0})
clear_failover_key w = perform w (Event.call Call.clear_failover_key)

-- The failover or switchover does not happen.
unfoldable pub clean_up : World → M (Option Message)
clean_up w = do clear_failover_key w; pure none

-- This node is the leader that the key names, if it names one.
unfoldable pub is_from_me : Node → Bool
is_from_me s =
    let f = s.ha.cluster.failover in not (truthy f.leader) || opt_eq f.leader (some s.ha.name)

unfoldable pub is_to_me : Node → Bool
is_to_me s =
    let f = s.ha.cluster.failover in truthy f.candidate && opt_eq f.candidate (some s.ha.name)

-- In pause, a failover needs a candidate.
unfoldable pub lacks_candidate : Node → Bool
lacks_candidate s = not (truthy s.ha.cluster.failover.candidate) && s.ha.is_paused

unfoldable pub hand_over : World → M (Option Message)
hand_over w = do
  possible ← asks_failover_possible w 0 true
  if possible
      then (do
        ret ← try_run_async Action.demoting
        pure (
            some (elim ret [
              | none ↦ Message.started Action.demoting
              | some previous ↦ Message.in_progress previous
            ])))
      else clean_up w

unfoldable pub process_failover_from_leader : World → M (Option Message)
process_failover_from_leader w = do
  eligible ← gets (λ s. is_from_me s && not (is_to_me s) && not (lacks_candidate s))
  if eligible then hand_over w else clean_up w

-- A switchover that is scheduled runs in its time only.
unfoldable pub process_when_due : World → Option ℕ → M (Option Message)
process_when_due w none = process_failover_from_leader w
process_when_due w (some at) = do
  due ← should_run_scheduled_action w (some at) (clear_failover_key w)
  if due then process_failover_from_leader w else pure none

-- `not (self.is_paused() and not self.state_handler.is_primary())`
unfoldable pub is_primary_or_unpaused : World → M Bool
is_primary_or_unpaused w = do
  paused ← gets is_paused
  if paused then asks_is_primary w else pure true

unfoldable pub process_manual_failover_from_leader : World → M (Option Message)
process_manual_failover_from_leader w = do
  primary ← is_primary_or_unpaused w
  acts ← gets (λ s. requested s.ha.cluster.failover)
  scheduled_at ← gets (λ s. s.ha.cluster.failover.scheduled_at)
  if acts && primary then process_when_due w scheduled_at else pure none

-- The key was updated, and no failover is requested.
unfoldable pub continue_as_leader : World → M Message
continue_as_leader w = do
  perform w (Event.call Call.ensure_checkpoint_after_promote)
  standby_cluster ← gets (λ s. s.ha.is_standby_cluster)
  standby_leader ← gets (λ s. is_role s.role Role.standby_leader)
  if standby_cluster
      then enforce_follow_remote_member w (
          if standby_leader
          then Message.i_am_the_standby_leader_with_the_lock
          else Message.promoted_to_standby_leader)
      else enforce_primary_role w Message.i_am_the_leader_with_the_lock
          Message.promoted_because_i_had_the_session_lock

unfoldable pub or_continue : World → Option Message → M Message
or_continue w (some msg) = pure msg
or_continue w none = continue_as_leader w

unfoldable pub with_updated_lock : World → M Message
with_updated_lock w = do msg ← process_manual_failover_from_leader w; or_continue w msg

-- The key could not be updated, or someone else acquired it.
unfoldable pub lose_lock : World → Bool → Bool → M Message
lose_lock w false paused = pure Message.not_promoting_because_failed_to_update_lock
lose_lock w true true = pure Message.continue_after_failing_to_update_lock
lose_lock w true false = do
  demote w Mode.immediate_nolock
  pure Message.demoted_because_failed_to_update_lock

unfoldable pub without_updated_lock : World → M Message
without_updated_lock w = do
  primary ← asks_is_primary w
  paused ← gets is_paused
  lose_lock w primary paused

unfoldable pub keep_lock : World → M Message
keep_lock w = do
  updated ← update_lock w true
  if updated then with_updated_lock w else without_updated_lock w

unfoldable pub candidate_is_me : Node → Bool
candidate_is_me s =
    requested s.ha.cluster.failover && opt_eq s.ha.cluster.failover.candidate (some s.ha.name)

unfoldable pub remove_lock : World → M Message
remove_lock w = do forget_leader w; pure Message.removed_lock_not_running_as_primary

-- In pause, the holder of the key does not run as a primary.
unfoldable pub hold_in_pause : World → M Message
hold_in_pause w = do
  promoted ← gets candidate_is_me
  standby_cluster ← gets (λ s. s.ha.is_standby_cluster)
  if promoted
      then pure Message.waiting_to_become_primary
      else if standby_cluster
      then keep_lock w
      else remove_lock w

unfoldable pub hold_lock : World → M Message
hold_lock w = do
  primary ← is_primary_or_unpaused w
  if primary then keep_lock w else hold_in_pause w

unfoldable pub follow_leader : World → M Message
follow_leader w = do
  standby_cluster ← gets (λ s. s.ha.is_standby_cluster)
  if standby_cluster
      then follow w Message.cannot_be_a_real_primary Message.a_secondary_following_a_standby_leader
          false
      else follow w Message.demoting_without_the_lock Message.a_secondary_following_a_leader false

unfoldable pub process_healthy_cluster : World → M Message
process_healthy_cluster w = do mine ← gets has_lock; if mine then hold_lock w else follow_leader w
