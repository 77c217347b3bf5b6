-- ===== src/Cycle/Run/DcsError.antt =====
-- `_handle_dcs_error` and `check_failsafe_topology` of patroni/ha.py.
use patroni.Base.{
  Bool, true, false, not, ◌&&◌, Option, none, some, List, Text, text_eq, all, any, select, map,
  if◌then◌else◌,
}
use patroni.Cycle.Exec.{pure, gets, ◌>>=◌, ◌>>◌}
use patroni.Cycle.Node.{
  Mode, Call, Event, Message, Reading, World, M, next, read, log, perform, asks_is_primary,
  asks_is_running,
}
use patroni.Cycle.Lock.{is_paused, set_is_leader, failsafe_set_is_active}
use patroni.Cycle.Demote.{demote}
use patroni.Cycle.Run.Processing.{sync_replication_slots}

-- `check_failsafe_topology`, without the positions of the replication slots.
unfoldable pub topology_accepts : (Text → Bool) → Text → Option (List (Text × Text)) → Bool
topology_accepts accepts name none = false
topology_accepts accepts name (some failsafe) =
    any (λ entry. text_eq entry.0 name) failsafe
    && all accepts (map (λ entry. entry.0) (select (λ entry. not (text_eq entry.0 name)) failsafe))

unfoldable pub check_failsafe_topology : World → M Bool
check_failsafe_topology w = do
  n ← next
  gets (λ s. topology_accepts (w.accepts n) s.ha.name (w.observe n).failsafe)

unfoldable pub continue_in_failsafe : World → M Message
continue_in_failsafe w = do
  log Event.failsafe_accepted
  set_is_leader w true
  now ← read w Reading.time
  failsafe_set_is_active now
  perform w (Event.call Call.watchdog_keepalive)
  sync_replication_slots w true
  pure Message.continue_because_failsafe_mode

unfoldable pub demote_without_dcs : World → M Message
demote_without_dcs w = do
  failsafe_set_is_active 0
  demote w Mode.offline
  pure Message.demoted_because_dcs_is_not_accessible

unfoldable pub accepted_in_failsafe : World → M Bool
accepted_in_failsafe w = do
  failsafe ← gets (λ s. s.ha.is_failsafe_mode)
  if failsafe then check_failsafe_topology w else pure false

unfoldable pub primary_without_dcs : World → M Message
primary_without_dcs w = do
  accepted ← accepted_in_failsafe w
  if accepted then continue_in_failsafe w else demote_without_dcs w

unfoldable pub standby_without_dcs : World → M Message
standby_without_dcs w = do sync_replication_slots w true; pure Message.dcs_is_not_accessible

unfoldable pub running_without_dcs : World → M Message
running_without_dcs w = do
  primary ← asks_is_primary w
  if primary then primary_without_dcs w else standby_without_dcs w

unfoldable pub active_without_dcs : World → M Message
active_without_dcs w = do
  running ← asks_is_running w
  if running then running_without_dcs w else pure Message.dcs_is_not_accessible

-- `_handle_dcs_error`
unfoldable pub handle_dcs_error : World → M Message
handle_dcs_error w = do
  paused ← gets is_paused
  if paused then pure Message.dcs_is_not_accessible else active_without_dcs w
