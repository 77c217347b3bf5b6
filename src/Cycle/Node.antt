-- ===== src/Cycle/Node.antt =====
-- The state that the cycle of patroni/ha.py keeps, and what it reads and does outside.
use patroni.Base.{ℕ, suc, Bool, true, false, Option, none, some, List, ◌∷◌, Text}
use patroni.Async.{CriticalTask}
use patroni.Ha.State.{Cluster, Config, Ha}
use patroni.Ha.State
use patroni.Cycle.Exec.{Error, Result, ok, err, Exec, pure, raise, gets, modify, ◌>>=◌, ◌>>◌}

-- `PostgresqlRole`
pub data Role : Type 0 where
  primary replica standby_leader promoted demoted uninitialized : Role

-- `PostgresqlState`, as far as the cycle distinguishes it.
pub data PostgresState : Type 0 where
  running starting restarting stopped crashed other : PostgresState

-- The modes of `demote`.
pub data Mode : Type 0 where
  offline graceful immediate immediate_nolock demote_cluster : Mode

-- The modes of a stop of PostgreSQL.
pub data StopMode : Type 0 where
  fast at_once : StopMode

-- The actions of the asynchronous executor.
pub data Action : Type 0 where
  promote restart starting_primary crash_recovery restarting_after_failure pg_rewind reinitializing
        changing_primary_conninfo starting_after_demotion demoting_to_standby_cluster demoting
        copy_logical_slots bootstrap bootstrap_standby_leader bootstrap_replica post_bootstrap
        reinitialize :
      Action

-- Calls that change neither the leader key nor whether PostgreSQL runs as a primary.
pub data Call : Type 0 where
  touch_member watchdog_disable watchdog_keepalive initialize set_config_value clear_failover_key
        update_failover_key cancel_initialization write_leader_optime trigger_check_diverged_lsn
        rewind_reset_state ensure_checkpoint_after_promote archive_shutdown_checkpoint_wal
        move_data_directory call_nowait cancel_subprocess terminate_starting_postmaster
        handle_parameter_change schedule_sanity_checks_after_pause set_synchronous_standby_names
        process_sync_replication reset_cluster_info_state update_cluster_history sync_meta_data
        sync_replication_slots notify_mpp_coordinator :
      Call

-- What a cycle reports: a message of the log.
pub data Message : Type 0 where
  -- The action that `try_run_async` found already scheduled.
  in_progress : Action → Message
  -- An action that was submitted.
  started : Action → Message
  -- `process_healthy_cluster`, `process_unhealthy_cluster`
  waiting_to_become_primary removed_lock_not_running_as_primary promoted_to_standby_leader
        i_am_the_standby_leader_with_the_lock i_am_the_leader_with_the_lock
        promoted_because_i_had_the_session_lock continue_after_failing_to_update_lock
        demoted_because_failed_to_update_lock not_promoting_because_failed_to_update_lock
        a_secondary_following_a_standby_leader a_secondary_following_a_leader wal_position_moved
        acquired_session_lock_as_a_leader promoted_by_acquiring_session_lock
        following_new_leader_after_failing_to_obtain_lock following_not_allowed_to_promote
        following_not_the_healthiest :
      Message
  -- The reasons of a demotion, by the calls of `follow`.
  cannot_be_a_real_primary demoting_without_the_lock demoted_after_failing_to_obtain_lock
        demoting_not_allowed_to_become_primary demoting_not_the_healthiest :
      Message
  -- `follow`
  continue_as_primary_without_lock no_action_i_am continue_following_old_standby_leader : Message
  -- `enforce_primary_role`
  demoting_because_watchdog_could_not_be_activated
        not_promoting_because_watchdog_could_not_be_activated promotion_cancelled
        postponing_promotion :
      Message
  -- `handle_long_action_in_progress`, `handle_starting_instance`
  terminated_crash_recovery lost_leader_before_promote : Message
  updated_leader_lock_during lost_leader_lock_during : Option Action → Message
  long_action_in_progress : Option Action → Message
  stopped_while_starting_up stopped_because_of_startup_timeout primary_start_timed_out
        still_starting_up :
      Message
  -- `recover`, `post_recover`
  stopped_to_fail_over_after_a_crash starting_as_readonly starting_as_a_standby_leader
        trying_to_follow_a_remote_member starting_as_a_secondary
        removed_leader_key_after_failing_to_start failed_to_start :
      Message
  -- `bootstrap`, `post_bootstrap`
  failed_to_acquire_initialize_lock waiting_for_leader_to_bootstrap waiting_for_end_of_recovery
        initialized_a_new_cluster :
      Message
  -- `_run_cycle`, `_handle_dcs_error`, `run_cycle`
  started_as_a_secondary : Message
  released_leader_key_data_dir : Bool → Message
  data_directory_is_not_accessible running_with_empty_data_directory system_id_is_invalid
        released_leader_key_system_id_mismatch removed_leader_lock_postgres_is_not_running
        postgres_is_not_running error_communicating_with_postgres dcs_is_not_accessible
        continue_because_failsafe_mode demoted_because_dcs_is_not_accessible unexpected_exception :
      Message

-- What a node does and learns, in order.
pub data Event : Type 0 where
  -- A cycle begins.
  cycle_started : Event
  -- PostgreSQL answers whether it is a primary, and whether it runs.
  is_primary is_running : Bool → Event
  -- The result of the pre-promote script is read, and it failed.
  pre_promote_failed : Event
  -- The DCS answers a request for the leader key, and an update of it.
  acquire_leader_lock update_leader : Bool → Event
  -- The DCS answers the race for the `/initialize` key.
  race_for_initialize : Bool → Event
  -- The leader key is updated, or taken, and the answer is not read.
  refresh_leader take_leader : Event
  -- The leader key is deleted, in pause or not.
  delete_leader : Bool → Event
  -- All members of the failsafe topology accept this node as the leader.
  failsafe_accepted : Event
  stop : StopMode → Event
  -- PostgreSQL is started as a standby, or reloaded to follow another node.
  follow : Role → Event
  -- An action is submitted to the executor.
  run : Action → Event
  call : Call → Event

-- `Failsafe`
pub record Failsafe : Type 0 where
  pub last_update : ℕ
  pub leader_name : Text

-- `scheduled_restart`
pub record Restart : Type 0 where
  pub schedule : Option ℕ
  pub postmaster_start_time : ℕ
  pub timeout : Option ℕ

-- The attributes of `Ha`, and the state of PostgreSQL that it keeps; `cluster_config` is what
-- `global_config.update` reads in the cluster; `ha` has those that the leader race reads too.
pub record Node : Type 0 where
  pub ha : Ha
  pub cluster_config : Config
  pub has_config : Bool
  pub old_is_empty : Bool
  pub leader_expiry : ℕ
  pub failsafe : Failsafe
  pub was_paused : Bool
  pub leader_timeline : Option ℕ
  pub recovering : Bool
  pub async_response : CriticalTask Bool
  pub crash_recovery_started : ℕ
  pub start_timeout : Option ℕ
  pub scheduled_action : Option Action
  pub scheduled_restart : Option Restart
  pub last_wal_lsn : Option ℕ
  pub prev_wal_lsn : Option ℕ
  pub primary_race_backoff_timestamp : ℕ
  pub released_leader_key_timestamp : ℕ
  pub join_aborted : Bool
  pub role : Role
  pub state : PostgresState
  pub bootstrapping : Bool
  pub cb_called : Bool
  pub last_state : Option (PostgresState × Role)
  pub history : List Event
  pub tick : ℕ

-- Questions with a Boolean answer.
pub data Question : Type 0 where
  primary_is_running postgres_is_running checks_for_startup postgres_is_healthy
        data_directory_is_empty data_directory_is_accessible watchdog_is_running watchdog_activates
        rewind_is_needed rewind_can_rewind_or_reinitialize_allowed rewind_executed rewind_failed
        can_rewind rewind_needed_and_possible should_remove_data_directory has_history
        recovery_conf_change_required restart_required remote_member_has_conn_url is_raft
        postgres_is_starting restart_matches writes_sync_state streams reports_shut_down
        is_mpp_coordinator controldata_is_in_production controldata_is_shut_down
        controldata_is_in_archive_recovery recovery_conf_exists was_restored_from_backup
        archive_command_is_set creates_slots task_is_postmaster has_bootstrap_section
        wins_initialize has_clone_member can_create_replica touch_member_succeeds reading_succeeds :
      Question

-- Questions that a number answers.
pub data Reading : Type 0 where
  time wal_position primary_timeline received_timeline pg_control_timeline replica_cached_timeline
        checkpoint_location time_in_state postmaster_start_time :
      Reading

-- The constants of the configuration, and the tags of the node.
pub record Settings : Type 0 where
  pub ttl : ℕ
  pub loop_wait : ℕ
  pub primary_start_timeout : ℕ
  pub primary_race_backoff : ℕ
  pub nostream : Bool
  pub replicatefrom : Option Text
  pub supports_multiple_sync : Bool

-- What `get_cluster` returns: the cluster with its configuration, and the timeline that its leader
-- published.
pub record View : Type 0 where
  pub cluster : Cluster
  pub config : Config
  pub has_config : Bool
  pub is_empty : Bool
  pub leader_timeline : Option ℕ

-- What the leader race reads in the PostgreSQL server, the watchdog and the `/failsafe` key.
pub record Observation : Type 0 where
  pub last_operation : ℕ
  pub replica_timeline : Option ℕ
  pub primary_timeline : ℕ
  pub is_starting : Bool
  pub is_primary : Bool
  pub watchdog_is_healthy : Bool
  pub failsafe : Option (List (Text × Text))

-- Outside the program: the PostgreSQL server, the DCS, the other nodes and the clock. Each answer
-- may differ from the one before, so they are numbered.
pub record World : Type 0 where
  pub answer : ℕ → Question → Bool
  pub number : ℕ → Reading → ℕ
  pub get_cluster : ℕ → Result View
  pub lock : ℕ → Result Bool
  pub raises : ℕ → Option Error
  pub nodes : ℕ → State.Env
  pub observe : ℕ → Observation
  pub accepts : ℕ → Text → Bool
  pub settings : Settings

abbrev pub M : Type 0 → Type 0
M A = Exec Node A

-- The number of the next answer.
unfoldable pub next : M ℕ
next s = (ok s.tick, record s { tick = suc s.tick })

unfoldable pub ask : World → Question → M Bool
unfolding next ◌>>=◌ gets
ask w q = do n ← next; pure (w.answer n q)

unfoldable pub read : World → Reading → M ℕ
read w r = do n ← next; pure (w.number n r)

unfoldable pub log : Event → M (Unit {0})
log e = modify (λ s. record s { history = e ∷ s.history })

unfoldable pub raise_some : Option Error → M (Unit {0})
raise_some none = pure tt
raise_some (some e) = raise e

-- A call outside: it was made, and it may raise.
unfoldable pub perform : World → Event → M (Unit {0})
perform w e = do log e; n ← next; raise_some (w.raises n)

-- `state_handler.is_primary()`, `state_handler.is_running()`
unfoldable pub asks_is_primary : World → M Bool
asks_is_primary w = do b ← ask w primary_is_running; log (is_primary b); pure b

unfoldable pub asks_is_running : World → M Bool
asks_is_running w = do b ← ask w postgres_is_running; log (is_running b); pure b

unfoldable pub lift : {A : Type 0} → Result A → M A
lift (ok a) = pure a
lift (err e) = raise e

unfoldable pub when : Bool → M (Unit {0}) → M (Unit {0})
when true m = m
when false m = pure tt

-- `try_run_async`: the action that is already scheduled, if there is one.
unfoldable pub submit : Action → Option Action → M (Option Action)
submit action (some previous) = pure (some previous)
submit action none = do
  modify (λ s. record s { scheduled_action = some action })
  log (run action)
  pure none

unfoldable pub try_run_async : Action → M (Option Action)
try_run_async action = do previous ← gets (λ s. s.scheduled_action); submit action previous

unfoldable pub set_role : Role → M (Unit {0})
set_role role = modify (λ s. record s { role = role })

unfoldable pub set_state : PostgresState → M (Unit {0})
set_state state = modify (λ s. record s { state = state })

unfoldable pub is_role : Role → Role → Bool
is_role primary primary = true
is_role replica replica = true
is_role standby_leader standby_leader = true
is_role promoted promoted = true
is_role demoted demoted = true
is_role uninitialized uninitialized = true
is_role _ _ = false
