-- ===== src/Cycle/Bootstrap.antt =====
-- `bootstrap` and `post_bootstrap` of patroni/ha.py.
use patroni.Base.{Bool, true, false, not, ◌&&◌, ◌||◌, none, some, null, if◌then◌else◌}
use patroni.Cycle.Exec.{Error, pure, raise, gets, modify, ◌>>=◌, ◌>>◌}
use patroni.Cycle.Node.{
  Role, StopMode, Action, Call, Event, Message, Node, Question, World, M, ask, log, perform, when,
  asks_is_primary, asks_is_running, set_role,
}
use patroni.Cycle.Lock.{is_unlocked, set_is_leader, load_cluster_from_dcs}
use patroni.Cycle.Follow.{starts}
use patroni.Cycle.Primary.{failed, reset_response}

-- `self.cluster.initialize is None`
unfoldable pub lacks_initialize : Node → Bool
lacks_initialize s = elim s.ha.cluster.initialize [ none ↦ true | some _ ↦ false ]

-- `self.cluster.initialize == ""`
unfoldable pub bootstraps_elsewhere : Node → Bool
bootstraps_elsewhere s = elim s.ha.cluster.initialize [ none ↦ false | some i ↦ null i ]

unfoldable pub race_for_initialization : World → M Message
race_for_initialization w = do
  perform w (Event.call Call.initialize)
  wins ← ask w Question.wins_initialize
  log (Event.race_for_initialize wins)
  standby_cluster ← gets (λ s. s.ha.is_standby_cluster)
  if not wins then pure Message.failed_to_acquire_initialize_lock else (do
    modify (λ s. record s { bootstrapping = true })
    reset_response
    starts (if standby_cluster then Action.bootstrap_standby_leader else Action.bootstrap))

-- From the leader, or one of the replicas.
unfoldable pub bootstrap_from_member : World → M Message
bootstrap_from_member w = do
  has_member ← ask w Question.has_clone_member
  can_create ← ask w Question.can_create_replica
  locked ← gets (λ s. not (is_unlocked s.ha.cluster))
  concurrent ← gets bootstraps_elsewhere
  if locked && has_member || can_create && not concurrent
      then starts Action.bootstrap_replica
      else pure Message.waiting_for_leader_to_bootstrap

unfoldable pub bootstrap : World → M Message
bootstrap w = do
  section ← ask w Question.has_bootstrap_section
  first ←
      gets (λ s. is_unlocked s.ha.cluster && lacks_initialize s && not s.ha.nofailover && section)
  if first then race_for_initialization w else bootstrap_from_member w

-- It always raises.
unfoldable pub cancel_initialization : World → M Message
cancel_initialization w = do
  perform w (Event.call Call.cancel_initialization)
  perform w (Event.stop StopMode.at_once)
  perform w (Event.call Call.move_data_directory)
  raise Error.fatal

unfoldable pub initialize_cluster : World → M Message
initialize_cluster w = do
  perform w (Event.call Call.ensure_checkpoint_after_promote)
  perform w (Event.call Call.initialize)
  perform w (Event.call Call.set_config_value)
  perform w Event.take_leader
  set_is_leader w true
  synchronous ← gets (λ s. s.ha.is_synchronous_mode)
  when synchronous (perform w (Event.call Call.set_synchronous_standby_names))
  perform w (Event.call Call.call_nowait)
  load_cluster_from_dcs w
  pure Message.initialized_a_new_cluster

unfoldable pub run_post_bootstrap : World → M Message
run_post_bootstrap w = do
  primary ← asks_is_primary w
  if not primary
      then pure Message.waiting_for_end_of_recovery
      else (do set_role Role.primary; starts Action.post_bootstrap)

unfoldable pub finish_bootstrap : World → M Message
finish_bootstrap w = do
  modify (λ s. record s { bootstrapping = false })
  activates ← ask w Question.watchdog_activates
  if not activates then cancel_initialization w else initialize_cluster w

unfoldable pub has_no_result : Node → Bool
has_no_result s = elim s.async_response.result [ none ↦ true | some _ ↦ false ]

unfoldable pub post_bootstrap : World → M Message
post_bootstrap w = do
  running ← asks_is_running w
  unsuccessful ← gets failed
  waits ← gets has_no_result
  if not running || unsuccessful
      then cancel_initialization w
      else if waits
      then run_post_bootstrap w
      else finish_bootstrap w
