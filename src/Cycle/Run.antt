-- ===== src/Cycle/Run.antt =====
-- The end of `_run_cycle`, and `run_cycle`, of patroni/ha.py.
pub mod Refresh
pub mod Processing
pub mod Checks
pub mod DcsError
use patroni.Base.{
  ℕ, Bool, true, false, not, ◌&&◌, ◌||◌, Option, none, some, List, Text, text_eq, leb, length, all,
  any, select, map, if◌then◌else◌,
}
use patroni.Ha.Race.{opt_eq}
use patroni.Cycle.Exec.{Error, Result, ok, err, pure, raise, gets, modify, catch, ◌>>=◌, ◌>>◌}
use patroni.Cycle.Node.{
  Role, PostgresState, Mode, StopMode, Action, Call, Event, Message, Node, Question, Reading, World,
  M, next, ask, read, log, perform, lift, when, asks_is_primary, asks_is_running, try_run_async,
  set_role, set_state,
}
use patroni.Cycle.Lock.{
  is_unlocked, has_lock, is_paused, is_leader, set_is_leader, failsafe_is_active,
  failsafe_set_is_active, load_cluster_from_dcs, remember_position, touch_member, forget_leader,
  release_leader_key_voluntarily,
}
use patroni.Cycle.Demote.{demote}
use patroni.Cycle.Follow.{or_else}
use patroni.Cycle.Primary.{process_healthy_cluster}
use patroni.Cycle.Unhealthy.{process_unhealthy_cluster}
use patroni.Cycle.Startup.{
  handle_long_action_in_progress, handle_starting_instance, recover, post_recover,
}
use patroni.Cycle.Bootstrap.{bootstrap, post_bootstrap}
use patroni.Cycle.Restart.{evaluate_scheduled_restart}
unfoldable pub use patroni.Cycle.Run.Refresh.{
  sysid_valid, update_global_config, reload, fail_to_reload, note_pause, has_member,
  touch_missing_member, restore_initialize, get_cluster, restore_config, refresh,
}
unfoldable pub use patroni.Cycle.Run.Processing.{
  call_on_start, or_copying, copy_slots, sync_replication_slots, handle_slots, is_promoting,
  lets_sync, finish_processing, or_message, process_healthy, process_cluster,
}
unfoldable pub use patroni.Cycle.Run.Checks.{
  crash_state, start_dead_postgres, remove_lock, dead_in_pause, dead_postgres, check_health,
  release_mismatched, sysid_mismatch, initialize_or_abort, initializes, check_initialize,
  check_sysid, release_without_data, new_node, without_data, check_data_directory, finish_recovery,
  recover_unless_rewind, after_recovery, check_node, check_start, decide,
}
unfoldable pub use patroni.Cycle.Run.DcsError.{
  topology_accepts, check_failsafe_topology, continue_in_failsafe, demote_without_dcs,
  accepted_in_failsafe, primary_without_dcs, standby_without_dcs, running_without_dcs,
  active_without_dcs, handle_dcs_error,
}

-- The `finally` block, unless the DCS failed.
unfoldable pub finish_cycle : World → M (Unit {0})
finish_cycle w = do
  leads ← is_leader w
  when leads (failsafe_set_is_active 0)
  touch_member w
  pure tt

-- `except DCSError`, `except (psycopg.Error, PostgresConnectionException)`, `finally`.
unfoldable pub conclude : World → Result Message → M Message
conclude w (ok msg) = do finish_cycle w; pure msg
conclude w (err Error.dcs_error) = handle_dcs_error w
conclude w (err Error.postgres_error) = do
  finish_cycle w
  pure Message.error_communicating_with_postgres
conclude w (err e) = do finish_cycle w; raise e

-- What was raised is a value.
unfoldable pub attempt : {A : Type 0} → M A → M (Result A)
attempt m s = let (r, s') = m s in (ok r, s')

unfoldable pub run_cycle_once : World → M Message
run_cycle_once w = do r ← attempt (decide w); conclude w r

unfoldable pub report_exception : Error → M Message
report_exception Error.fatal = raise Error.fatal
report_exception Error.exit = raise Error.exit
report_exception e = pure Message.unexpected_exception

-- `run_cycle`: the message, and whether it is prefixed by `PAUSE: `.
unfoldable pub run_cycle : World → M (Bool × Message)
run_cycle w = do
  log Event.cycle_started
  msg ← catch (run_cycle_once w) report_exception
  paused ← gets is_paused
  pure (paused, msg)
