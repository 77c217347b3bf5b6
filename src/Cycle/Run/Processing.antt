-- ===== src/Cycle/Run/Processing.antt =====
-- The last part of `_run_cycle` of patroni/ha.py: the cluster is processed, and the replication slots.
use patroni.Base.{Bool, true, false, not, ◌&&◌, Option, none, some, if◌then◌else◌}
use patroni.Cycle.Exec.{pure, gets, modify, ◌>>=◌, ◌>>◌}
use patroni.Cycle.Node.{
  Action, Call, Event, Message, Question, World, M, ask, perform, when, asks_is_primary,
  try_run_async,
}
use patroni.Cycle.Lock.{is_unlocked, failsafe_is_active}
use patroni.Cycle.Primary.{process_healthy_cluster}
use patroni.Cycle.Unhealthy.{process_unhealthy_cluster}
use patroni.Cycle.Restart.{evaluate_scheduled_restart}

-- What follows the cycle's decision: replication slots and the first callback.
unfoldable pub call_on_start : World → Bool → M (Unit {0})
call_on_start w promoting = do
  primary ← if promoting then pure true else asks_is_primary w
  when (not primary) (perform w (Event.call Call.trigger_check_diverged_lsn))
  perform w (Event.call Call.call_nowait)
  modify (λ s. record s { cb_called = true })

unfoldable pub or_copying : Message → Option Action → M Message
or_copying ret none = pure (Message.started Action.copy_logical_slots)
or_copying ret (some previous) = pure ret

unfoldable pub copy_slots : Bool → Message → M Message
copy_slots false ret = pure ret
copy_slots true ret = do previous ← try_run_async Action.copy_logical_slots; or_copying ret previous

-- `_sync_replication_slots`: whether slots are to be copied from the primary. With the DCS down they
-- are left alone, unless the failsafe mode is enabled.
unfoldable pub sync_replication_slots : World → Bool → M Bool
sync_replication_slots w dcs_failed = do
  failsafe ← gets (λ s. s.ha.is_failsafe_mode)
  if dcs_failed && not failsafe then pure false else (do
    perform w (Event.call Call.sync_replication_slots)
    create ← ask w Question.creates_slots
    active ← failsafe_is_active w
    pure (create && not active))

unfoldable pub handle_slots : World → Bool → Message → M Message
handle_slots w promoting ret = do
  create ← sync_replication_slots w false
  called ← gets (λ s. s.cb_called)
  when (not called) (call_on_start w promoting)
  led ← gets (λ s. elim s.ha.cluster.leader [ none ↦ false | some _ ↦ true ])
  copy_slots (not promoting && create && led) ret

unfoldable pub is_promoting : Option Action → Bool
is_promoting (some Action.promote) = true
is_promoting _ = false

-- No action is in progress, or a standby is promoted.
unfoldable pub lets_sync : Option Action → Bool
lets_sync none = true
lets_sync action = is_promoting action

unfoldable pub finish_processing : World → Message → M Message
finish_processing w ret = do
  starting ← ask w Question.postgres_is_starting
  action ← gets (λ s. s.scheduled_action)
  if lets_sync action && not starting then handle_slots w (is_promoting action) ret else pure ret

unfoldable pub or_message : Option Message → Message → Message
or_message (some msg) ret = msg
or_message none ret = ret

unfoldable pub process_healthy : World → M Message
process_healthy w = do
  msg ← process_healthy_cluster w
  restarted ← evaluate_scheduled_restart w
  pure (or_message restarted msg)

unfoldable pub process_cluster : World → M Message
process_cluster w = do
  unlocked ← gets (λ s. is_unlocked s.ha.cluster)
  ret ← if unlocked then process_unhealthy_cluster w else process_healthy w
  finish_processing w ret
