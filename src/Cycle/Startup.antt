-- ===== src/Cycle/Startup.antt =====
-- Actions in progress, a server that starts, and a server that does not run, in patroni/ha.py:
-- `handle_long_action_in_progress`, `handle_starting_instance`, `recover`, `post_recover`.
use patroni.Base.{
  ◌+◌, ℕ, Bool, true, false, not, ◌&&◌, ◌||◌, Option, none, some, leb, ◌==◌, if◌then◌else◌,
}
use patroni.Async.{cancel_task}
use patroni.Cycle.Exec.{pure, gets, modify, ◌>>=◌, ◌>>◌}
use patroni.Cycle.Node.{
  Role, PostgresState, Mode, Action, Call, Event, Message, Node, Question, Reading, World, M, ask,
  read, perform, when, asks_is_running, try_run_async, set_role, set_state, is_role,
}
use patroni.Cycle.Lock.{
  is_unlocked, has_lock, is_paused, load_cluster_from_dcs, update_lock, forget_leader,
}
use patroni.Cycle.Demote.{demote, asks_failover_possible}
use patroni.Cycle.Follow.{or_else, handle_crash_recovery, handle_rewind_or_reinitialize}
use patroni.Cycle.Primary.{process_manual_failover_from_leader}

-- `self.has_lock() and self.update_lock(...)`
unfoldable pub has_and_updates_lock : World → M Bool
has_and_updates_lock w = do mine ← gets has_lock; if mine then update_lock w false else pure false

unfoldable pub is_action : Action → Option Action → Bool
is_action Action.promote (some Action.promote) = true
is_action Action.restart (some Action.restart) = true
is_action Action.starting_primary (some Action.starting_primary) = true
is_action Action.crash_recovery (some Action.crash_recovery) = true
is_action _ _ = false

-- A crash recovery took longer than `primary_start_timeout`.
unfoldable pub recovery_timed_out : World → ℕ → Node → Bool
recovery_timed_out w now s =
    is_action Action.crash_recovery s.scheduled_action
    && leb (s.crash_recovery_started + w.settings.primary_start_timeout) now

unfoldable pub action_with_lock : World → M Message
action_with_lock w = do
  now ← read w Reading.time
  timed_out ← gets (recovery_timed_out w now)
  possible ← asks_failover_possible w 0 false
  action ← gets (λ s. s.scheduled_action)
  if timed_out && possible
      then (do
        perform w (Event.call Call.cancel_subprocess)
        demote w Mode.immediate
        pure Message.terminated_crash_recovery)
      else pure (Message.updated_leader_lock_during action)

-- `self._async_response.cancel()` before the promotion, if one is scheduled.
unfoldable pub cancel_promote : M Bool
cancel_promote = do
  promotes ← gets (λ s. is_action Action.promote s.scheduled_action)
  task ← gets (λ s. s.async_response)
  if promotes
      then (do
        modify (λ s. record s { async_response = (cancel_task task).1 })
        pure (cancel_task task).0)
      else pure false

-- The postmaster that a background thread may just have started.
unfoldable pub terminate_postmaster : World → M (Unit {0})
terminate_postmaster w = do
  starts ← gets (λ s.
      is_action Action.restart s.scheduled_action
      || is_action Action.starting_primary s.scheduled_action)
  terminates ← ask w Question.task_is_postmaster
  when (starts && terminates) (perform w (Event.call Call.terminate_starting_postmaster))

unfoldable pub demote_during_action : World → M Message
demote_during_action w = do
  action ← gets (λ s. s.scheduled_action)
  terminate_postmaster w
  demote w Mode.immediate_nolock
  pure (Message.lost_leader_lock_during action)

unfoldable pub report_action : M Message
report_action = gets (λ s. Message.long_action_in_progress s.scheduled_action)

-- Without the lock, and neither bootstrapping nor in pause.
unfoldable pub action_without_lock : World → M Message
action_without_lock w = do
  cancelled ← cancel_promote
  primary ← gets (λ s. is_role s.role Role.primary)
  if cancelled
      then (do
        perform w (Event.call Call.cancel_subprocess)
        pure Message.lost_leader_before_promote)
      else if primary
      then demote_during_action w
      else report_action

unfoldable pub handle_long_action_in_progress : World → M Message
handle_long_action_in_progress w = do
  updated ← has_and_updates_lock w
  stops ← gets (λ s. not s.bootstrapping && not s.ha.is_paused)
  if updated then action_with_lock w else if stops then action_without_lock w else report_action

unfoldable pub set_start_timeout : Option ℕ → M (Unit {0})
set_start_timeout value = modify (λ s. record s { start_timeout = value })

-- The server does not start, or the cluster is in pause.
unfoldable pub not_starting : World → M (Option Message)
not_starting w = do
  set_start_timeout none
  paused ← gets is_paused
  if paused
      then (do
        running ← asks_is_running w
        set_state (if running then PostgresState.running else PostgresState.stopped)
        pure none)
      else pure none

-- `self._start_timeout or global_config.primary_start_timeout`
unfoldable pub timeout_to_start : World → Node → ℕ
timeout_to_start w s = elim s.start_timeout [
  | none ↦ w.settings.primary_start_timeout
  | some t ↦ if t == 0 then w.settings.primary_start_timeout else t
]

unfoldable pub start_timed_out : World → M Message
start_timed_out w = do
  possible ← asks_failover_possible w 0 false
  if possible
      then (do demote w Mode.immediate; pure Message.stopped_because_of_startup_timeout)
      else pure Message.primary_start_timed_out

unfoldable pub start_with_lock : World → M Message
start_with_lock w = do
  timeout ← gets (timeout_to_start w)
  elapsed ← read w Reading.time_in_state
  if leb timeout elapsed then start_timed_out w else (do
    msg ← process_manual_failover_from_leader w
    or_else msg (pure Message.still_starting_up))

unfoldable pub lose_lock_at_start : World → M Message
lose_lock_at_start w = do demote w Mode.immediate_nolock; pure Message.stopped_while_starting_up

unfoldable pub starting_with_key : World → M Message
starting_with_key w = do
  updated ← update_lock w false
  if updated then start_with_lock w else lose_lock_at_start w

unfoldable pub return_some : M Message → M (Option Message)
return_some m = do msg ← m; pure (some msg)

unfoldable pub handle_starting_instance : World → M (Option Message)
handle_starting_instance w = do
  starting ← ask w Question.checks_for_startup
  paused ← gets is_paused
  mine ← gets has_lock
  if not starting || paused
      then not_starting w
      else if mine
      then return_some (starting_with_key w)
      else pure none

-- The last part of `recover`: PostgreSQL is started as a standby.
unfoldable pub restart_as_standby : Message → M Message
restart_as_standby msg = do
  previous ← try_run_async Action.restarting_after_failure
  modify (λ s. record s { recovering = elim previous [ none ↦ true | some _ ↦ s.recovering ] })
  pure msg

-- Which node is followed is `node_to_follow` of the source.
unfoldable pub message_to_follow : Node → Message
message_to_follow s =
    if has_lock s
    then Message.starting_as_a_standby_leader
    else if s.ha.is_standby_cluster && is_unlocked s.ha.cluster
    then Message.trying_to_follow_a_remote_member
    else Message.starting_as_a_secondary

unfoldable pub start_as_secondary : World → M Message
start_as_secondary w = do
  msg ← gets message_to_follow
  synchronous ← gets (λ s. s.ha.is_synchronous_mode)
  when synchronous (perform w (Event.call Call.set_synchronous_standby_names))
  restart_as_standby msg

unfoldable pub rewind_or_start : World → M Message
rewind_or_start w = do
  executed ← ask w Question.rewind_executed
  when (not executed) (perform w (Event.call Call.trigger_check_diverged_lsn))
  msg ← handle_rewind_or_reinitialize w
  or_else msg (start_as_secondary w)

unfoldable pub start_as_readonly : World → M Message
start_as_readonly w = do
  perform w (Event.call Call.rewind_reset_state)
  restart_as_standby Message.starting_as_readonly

unfoldable pub start_again : World → M Message
start_again w = do
  load_cluster_from_dcs w
  readonly ← gets (λ s. has_lock s && not s.ha.is_standby_cluster)
  if readonly then start_as_readonly w else rewind_or_start w

-- The crash recovery in a single user mode, unless there is a backup_label.
unfoldable pub recover_crash : World → M (Option Message)
recover_crash w = do
  in_production ← ask w Question.controldata_is_in_production
  restored ← ask w Question.was_restored_from_backup
  if in_production && not restored then handle_crash_recovery w else pure none

unfoldable pub recover_as_standby : World → M Message
recover_as_standby w = do
  perform w (Event.call Call.watchdog_disable)
  msg ← recover_crash w
  or_else msg (start_again w)

unfoldable pub is_crashed : PostgresState → Bool
is_crashed PostgresState.crashed = true
is_crashed _ = false

-- It ran as a primary a few moments ago, and the lock was just updated.
unfoldable pub starts_as_primary : World → M Bool
starts_as_primary w = do
  in_production ← ask w Question.controldata_is_in_production
  shut_down ← ask w Question.controldata_is_shut_down
  recovery_conf ← ask w Question.recovery_conf_exists
  gets (λ s.
      not (w.settings.primary_start_timeout == 0)
      && (in_production || shut_down)
      && is_crashed s.state
      && is_role s.role Role.primary
      && not recovery_conf)

unfoldable pub unless_started : World → Option Action → M Message
unless_started w none = do
  modify (λ s. record s { recovering = true })
  pure (Message.started Action.starting_primary)
unless_started w (some previous) = recover_as_standby w

unfoldable pub start_primary : World → M Message
start_primary w = do previous ← try_run_async Action.starting_primary; unless_started w previous

unfoldable pub recover_with_lock : World → M Message
recover_with_lock w = do
  starts ← starts_as_primary w
  if starts then start_primary w else recover_as_standby w

unfoldable pub fail_over_after_crash : World → M Message
fail_over_after_crash w = do
  perform w (Event.call Call.watchdog_disable)
  demote w Mode.immediate
  pure Message.stopped_to_fail_over_after_a_crash

unfoldable pub recover_or_fail_over : World → M Message
recover_or_fail_over w = do
  possible ← asks_failover_possible w 0 false
  if w.settings.primary_start_timeout == 0 && possible
      then fail_over_after_crash w
      else recover_with_lock w

unfoldable pub recover : World → M Message
recover w = do
  updated ← has_and_updates_lock w
  if updated then recover_or_fail_over w else recover_as_standby w

unfoldable pub forget_failed_start : World → M Message
forget_failed_start w = do
  leads ← gets (λ s. is_role s.role Role.primary || is_role s.role Role.standby_leader)
  when leads (set_role Role.demoted >> perform w (Event.call Call.call_nowait))
  forget_leader w
  pure Message.removed_leader_key_after_failing_to_start

unfoldable pub failed_start : World → M Message
failed_start w = do
  perform w (Event.call Call.watchdog_disable)
  mine ← gets has_lock
  if mine then forget_failed_start w else pure Message.failed_to_start

unfoldable pub post_recover : World → M (Option Message)
post_recover w = do
  running ← asks_is_running w
  if running then pure none else return_some (failed_start w)
