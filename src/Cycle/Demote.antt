-- ===== src/Cycle/Demote.antt =====
-- `demote` of patroni/ha.py.
use patroni.Base.{ℕ, Bool, true, false, not, ◌&&◌, if◌then◌else◌}
use patroni.Ha.Manual.{is_failover_possible}
use patroni.Cycle.Exec.{Error, pure, raise, gets, catch, ◌>>=◌, ◌>>◌}
use patroni.Cycle.Node.{
  Role, Mode, StopMode, Action, Call, Event, Question, Reading, World, M, next, ask, read, perform,
  lift, when, try_run_async, set_role,
}
use patroni.Cycle.Lock.{set_is_leader, release_leader_key_voluntarily}

-- An entry of `mode_control`.
pub record Control : Type 0 where
  pub stop : StopMode
  pub release : Bool
  pub offline : Bool
  pub async_req : Bool

unfoldable pub control : Mode → Control
control Mode.offline = record {
  stop = StopMode.fast;
  release = false;
  offline = true;
  async_req = false;
}
control Mode.graceful = record {
  stop = StopMode.fast;
  release = true;
  offline = false;
  async_req = false;
}
control Mode.immediate = record {
  stop = StopMode.at_once;
  release = true;
  offline = false;
  async_req = true;
}
control Mode.immediate_nolock = record {
  stop = StopMode.at_once;
  release = false;
  offline = false;
  async_req = true;
}
control Mode.demote_cluster = record {
  stop = StopMode.fast;
  release = true;
  offline = false;
  async_req = false;
}

unfoldable pub is_graceful : Mode → Bool
is_graceful Mode.graceful = true
is_graceful _ = false

unfoldable pub is_demote_cluster : Mode → Bool
is_demote_cluster Mode.demote_cluster = true
is_demote_cluster _ = false

-- `self.is_failover_possible(...)`
unfoldable pub asks_failover_possible : World → ℕ → Bool → M Bool
asks_failover_possible w cluster_lsn filter_site = do
  n ← next
  gets (λ s. is_failover_possible (w.nodes n) s.ha cluster_lsn false filter_site)

-- `on_shutdown`: whether the leader key was released.
unfoldable pub on_shutdown : World → M Bool
on_shutdown w = do
  lsn ← read w Reading.checkpoint_location
  possible ← asks_failover_possible w lsn false
  if possible
      then (do set_role Role.demoted; release_leader_key_voluntarily w; pure true)
      else pure false

unfoldable pub notify_demotion : World → M (Unit {0})
notify_demotion w = do
  coordinator ← ask w Question.is_mpp_coordinator
  when (not coordinator) (perform w (Event.call Call.notify_mpp_coordinator))

-- The stop of PostgreSQL with its callbacks: whether the leader key was released. While the
-- postmaster still runs, pg_control may report a clean shutdown.
unfoldable pub stop_with : World → StopMode → Bool → Bool → M Bool
stop_with w mode is_graceful release = do
  when is_graceful (notify_demotion w)
  perform w (Event.stop mode)
  watchdog ← ask w Question.watchdog_is_running
  when watchdog (perform w (Event.call Call.watchdog_disable))
  reports ← ask w Question.reports_shut_down
  if release && reports then on_shutdown w else pure false

-- The cluster to follow; an exception is ignored.
unfoldable pub get_cluster_to_follow : World → M (Unit {0})
get_cluster_to_follow w = do
  n ← next
  catch (do lift (w.get_cluster n); pure tt)
      (λ e. elim e [ Error.exit ↦ raise Error.exit | _ ↦ pure tt ])

unfoldable pub start_after_demotion : World → Bool → Role → M (Unit {0})
start_after_demotion w true role = do try_run_async Action.starting_after_demotion; pure tt
start_after_demotion w false role = do
  rewinds ← ask w Question.rewind_needed_and_possible
  when (not rewinds) (perform w (Event.follow role))

-- What `demote` does with the leader key once PostgreSQL stopped: a cluster that is demoted keeps
-- it, unless `on_shutdown` released it.
unfoldable pub settle_key : World → Bool → Bool → Bool → M (Unit {0})
settle_key w true release released = perform w Event.refresh_leader
settle_key w false release released = do
  set_is_leader w false
  when (release && not released) (release_leader_key_voluntarily w)

unfoldable pub demote : World → Mode → M (Unit {0})
demote w mode = do
  perform w (Event.call Call.trigger_check_diverged_lsn)
  archives ← ask w Question.archive_command_is_set
  let with_archive = is_demote_cluster mode && archives
  let release = (control mode).release && not with_archive
  released ← stop_with w (control mode).stop (is_graceful mode) release
  set_role Role.demoted
  let is_standby_leader = is_demote_cluster mode && not released
  settle_key w is_standby_leader release released
  when with_archive (perform w (Event.call Call.archive_shutdown_checkpoint_wal))
  when (not (control mode).offline) (get_cluster_to_follow w)
  synchronous ← gets (λ s. s.ha.is_synchronous_mode)
  when synchronous (perform w (Event.call Call.set_synchronous_standby_names))
  start_after_demotion w (control mode).async_req
      (if is_standby_leader then Role.standby_leader else Role.replica)
