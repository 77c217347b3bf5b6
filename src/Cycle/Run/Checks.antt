-- ===== src/Cycle/Run/Checks.antt =====
-- The middle of `_run_cycle` of patroni/ha.py: PostgreSQL's health, the data directory, the system ID.
use patroni.Base.{Bool, true, false, not, ◌&&◌, ◌||◌, Option, none, some, if◌then◌else◌}
use patroni.Ha.Race.{opt_eq}
use patroni.Cycle.Exec.{Error, pure, raise, gets, modify, ◌>>=◌, ◌>>◌}
use patroni.Cycle.Node.{
  Role, PostgresState, StopMode, Call, Event, Message, Node, Question, World, M, ask, perform, when,
  asks_is_primary, asks_is_running, set_role, set_state,
}
use patroni.Cycle.Lock.{
  is_unlocked, has_lock, is_paused, forget_leader, release_leader_key_voluntarily,
}
use patroni.Cycle.Follow.{or_else}
use patroni.Cycle.Startup.{
  handle_long_action_in_progress, handle_starting_instance, recover, post_recover,
}
use patroni.Cycle.Bootstrap.{bootstrap, post_bootstrap}
use patroni.Cycle.Run.Refresh.{sysid_valid, refresh}
use patroni.Cycle.Run.Processing.{process_cluster}

unfoldable pub crash_state : PostgresState → PostgresState
crash_state PostgresState.running = PostgresState.crashed
crash_state PostgresState.starting = PostgresState.crashed
crash_state state = state

-- `try to start dead postgres`
unfoldable pub start_dead_postgres : World → M Message
start_dead_postgres w = do modify (λ s. record s { state = crash_state s.state }); recover w

unfoldable pub remove_lock : World → M Message
remove_lock w = do forget_leader w; pure Message.removed_leader_lock_postgres_is_not_running

-- In pause, PostgreSQL is started only after a demotion that is followed by pg_rewind.
unfoldable pub dead_in_pause : World → M Message
dead_in_pause w = do
  set_state PostgresState.stopped
  mine ← gets has_lock
  rewind_failed ← ask w Question.rewind_failed
  executed ← ask w Question.rewind_executed
  needed ← ask w Question.rewind_is_needed
  allowed ← ask w Question.rewind_can_rewind_or_reinitialize_allowed
  if mine
      then remove_lock w
      else if rewind_failed || not executed && not (needed && allowed)
      then pure Message.postgres_is_not_running
      else start_dead_postgres w

unfoldable pub dead_postgres : World → M Message
dead_postgres w = do
  paused ← gets is_paused
  if paused then dead_in_pause w else start_dead_postgres w

unfoldable pub check_health : World → M Message
check_health w = do
  healthy ← ask w Question.postgres_is_healthy
  if healthy then process_cluster w else dead_postgres w

-- The system ID is not the cluster's.
unfoldable pub release_mismatched : World → M Message
release_mismatched w = do
  release_leader_key_voluntarily w
  pure Message.released_leader_key_system_id_mismatch

unfoldable pub sysid_mismatch : World → M Message
sysid_mismatch w = do
  paused ← gets is_paused
  mine ← gets has_lock
  if not paused then raise Error.exit else if mine then release_mismatched w else check_health w

-- A replica must not initialize the cluster.
unfoldable pub initialize_or_abort : World → M Message
initialize_or_abort w = do
  running ← asks_is_running w
  primary ← if running then asks_is_primary w else pure true
  if not primary
      then (do modify (λ s. record s { join_aborted = true }); raise Error.exit)
      else (do perform w (Event.call Call.initialize); check_health w)

unfoldable pub initializes : Node → Bool
initializes s = is_unlocked s.ha.cluster && not s.ha.is_paused && not s.cb_called

unfoldable pub check_initialize : World → M Message
check_initialize w = do
  first ← gets initializes
  if first then initialize_or_abort w else check_health w

unfoldable pub check_sysid : World → M Message
check_sysid w = do
  mine_valid ← gets (λ s. sysid_valid (some s.ha.sysid))
  valid ← gets (λ s. sysid_valid s.ha.cluster.initialize)
  same ← gets (λ s. opt_eq s.ha.cluster.initialize (some s.ha.sysid))
  if not mine_valid
      then pure Message.system_id_is_invalid
      else if valid
      then if same then check_health w else sysid_mismatch w
      else check_initialize w

unfoldable pub release_without_data : World → Bool → M Message
release_without_data w accessible = do
  release_leader_key_voluntarily w
  pure (Message.released_leader_key_data_dir accessible)

unfoldable pub new_node : World → Bool → M Message
new_node w accessible = do
  paused ← gets is_paused
  if not accessible
      then pure Message.data_directory_is_not_accessible
      else if paused
      then pure Message.running_with_empty_data_directory
      else bootstrap w

-- The data directory is empty, or not accessible.
unfoldable pub without_data : World → Bool → M Message
without_data w accessible = do
  set_role Role.uninitialized
  perform w (Event.stop StopMode.at_once)
  perform w (Event.call Call.watchdog_disable)
  mine ← gets has_lock
  if mine then release_without_data w accessible else new_node w accessible

unfoldable pub check_data_directory : World → M Message
check_data_directory w = do
  accessible ← ask w Question.data_directory_is_accessible
  empty ← ask w Question.data_directory_is_empty
  if not accessible || empty then without_data w accessible else check_sysid w

-- PostgreSQL was started after a recovery.
unfoldable pub finish_recovery : World → M Message
finish_recovery w = do
  modify (λ s. record s { crash_recovery_started = 0 })
  executed ← ask w Question.rewind_executed
  rewind_failed ← ask w Question.rewind_failed
  when (executed && not rewind_failed) (perform w (Event.call Call.rewind_reset_state))
  raft ← ask w Question.is_raft
  unlocked ← gets (λ s. is_unlocked s.ha.cluster)
  if unlocked && raft then pure Message.started_as_a_secondary else check_data_directory w

unfoldable pub recover_unless_rewind : World → Bool → M (Option Message)
recover_unless_rewind w true = pure none
recover_unless_rewind w false = post_recover w

unfoldable pub after_recovery : World → M Message
after_recovery w = do
  modify (λ s. record s { recovering = false })
  needed ← ask w Question.rewind_is_needed
  msg ← recover_unless_rewind w needed
  or_else msg (finish_recovery w)

-- No action is in progress, and PostgreSQL does not start.
unfoldable pub check_node : World → M Message
check_node w = do
  bootstrapping ← gets (λ s. s.bootstrapping)
  recovering ← gets (λ s. s.recovering)
  if bootstrapping
      then post_bootstrap w
      else if recovering
      then after_recovery w
      else check_data_directory w

unfoldable pub check_start : World → M Message
check_start w = do msg ← handle_starting_instance w; or_else msg (check_node w)

-- `_run_cycle` in its outer `try`.
unfoldable pub decide : World → M Message
decide w = do
  refresh w
  busy ← gets (λ s. elim s.scheduled_action [ none ↦ false | some _ ↦ true ])
  if busy then handle_long_action_in_progress w else check_start w
