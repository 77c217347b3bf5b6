-- ===== src/Cycle/Examples.antt =====
-- A node that holds the leader key, in one cycle: it is promoted, gives the key up, and keeps it.
use patroni.Base.{
  ◌≡◌, refl, ℕ, suc, zero, Bool, true, false, Option, none, some, List, [], ◌∷◌, ◌++◌, codes,
  if◌then◌else◌,
}
use patroni.Base
use patroni.Base.{text_eq}
use patroni.Cycle.Exec
use patroni.Cycle.Node
use patroni.Cycle.Lock
use patroni.Cycle.Lock.{is_leader_at}
use patroni.Cycle.Demote
use patroni.Cycle.Primary
use patroni.Cycle.Startup
use patroni.Cycle.Follow
use patroni.Cycle.Restart
use patroni.Cycle.Run
use patroni.Cycle.Loop
use patroni.Ha.State
use patroni.Ha.Race
use patroni.Ha.Multisync
use patroni.Async.{fresh_task}
use patroni.Ha.State.{Cluster, Config, Ha}
use patroni.Ha.Samples
use patroni.Cycle.Exec.{ok}
use patroni.Cycle.Node.{
  Role, PostgresState, Action, Call, Event, Failsafe, Node, Question, Reading, Settings, View,
  Observation, World,
}
use patroni.Cycle.Loop.{Turn, loop, IsNew}
use patroni.Cycle.Safety.Looping.{loop_promotes_with_key}
use patroni.Cycle.Safety.{permits}

abbrev config : Config
config = record Samples.config { is_synchronous_mode = false; is_quorum_commit_mode = false }

abbrev cluster : Cluster
cluster = record Samples.cluster {
  initialize = some (codes "1234567890");
  leader = some (codes "b");
}

abbrev view : View
view = record {
  cluster = cluster;
  config = config;
  has_config = true;
  is_empty = false;
  leader_timeline = some 3;
}

abbrev settings : Settings
settings = record {
  ttl = 30;
  loop_wait = 10;
  primary_start_timeout = 300;
  primary_race_backoff = 0;
  nostream = false;
  replicatefrom = none;
  supports_multiple_sync = true;
}

-- PostgreSQL runs as a standby; `watchdog` tells whether the watchdog can be activated.
abbrev answer : Bool → Question → Bool
answer watchdog Question.postgres_is_running = true
answer watchdog Question.data_directory_is_accessible = true
answer watchdog Question.postgres_is_healthy = true
answer watchdog Question.watchdog_activates = watchdog
answer watchdog Question.touch_member_succeeds = true
answer watchdog _ = false

abbrev world : Bool → World
world watchdog = record {
  answer = λ n. answer watchdog;
  number = λ n r. elim r [ Reading.time ↦ 100 | _ ↦ 0 ];
  get_cluster = λ n. ok view;
  lock = λ n. ok true;
  raises = λ n. none;
  nodes = λ n. Samples.env;
  observe = λ n. record {
    last_operation = 0;
    replica_timeline = none;
    primary_timeline = 0;
    is_starting = false;
    is_primary = false;
    watchdog_is_healthy = true;
    failsafe = none;
  };
  accepts = λ n name. true;
  settings = settings;
}

abbrev start : Node
start = record {
  ha = record Samples.node { config = config; cluster = cluster; sysid = codes "1234567890" };
  cluster_config = config;
  has_config = true;
  old_is_empty = false;
  leader_expiry = 0;
  failsafe = record { last_update = 0; leader_name = [] };
  was_paused = false;
  leader_timeline = none;
  recovering = false;
  async_response = fresh_task;
  crash_recovery_started = 0;
  start_timeout = none;
  scheduled_action = none;
  scheduled_restart = none;
  last_wal_lsn = none;
  prev_wal_lsn = none;
  primary_race_backoff_timestamp = 0;
  released_leader_key_timestamp = 0;
  join_aborted = false;
  role = Role.replica;
  state = PostgresState.running;
  bootstrapping = false;
  cb_called = true;
  last_state = none;
  history = [];
  tick = 0;
}

start-IsNew : IsNew start
start-IsNew = record { no_history = refl; no_key = refl }

-- What the two cycles have in common.
abbrev updated : List Event
updated =
    Event.call Call.ensure_checkpoint_after_promote
    ∷ Event.call Call.watchdog_keepalive
    ∷ Event.update_leader true
    ∷ Event.call Call.reset_cluster_info_state
    ∷ Event.cycle_started
    ∷ []

abbrev before_promotion : List Event
before_promotion = Event.call Call.set_synchronous_standby_names ∷ Event.is_primary false ∷ updated

abbrev after_promotion : List Event
after_promotion = Event.call Call.touch_member ∷ Event.call Call.sync_replication_slots ∷ []

abbrev after_release : List Event
after_release =
    Event.call Call.touch_member
    ∷ Event.call Call.sync_replication_slots
    ∷ Event.call Call.touch_member
    ∷ []

abbrev turns : Bool → List Turn
turns watchdog = Turn.cycle (world watchdog) ∷ []

-- With a watchdog the node is promoted, and leads for the `ttl`; without it the key is released.
run_cycles :
    ((loop (turns true) start).history
      ≡ after_promotion ++ Event.run Action.promote ∷ before_promotion)
    × ((loop (turns false) start).history
        ≡ after_release ++ Event.delete_leader false ∷ Event.is_primary false ∷ updated)
    × (is_leader_at 129 (loop (turns true) start) ≡ true)
unfolding Exec.pure Exec.modify Exec.catch Node.ask Node.read Node.log Node.raise_some Node.perform
    Node.asks_is_primary Node.lift Node.when Node.submit Node.try_run_async Node.is_role
    Lock.is_unlocked Lock.has_lock Lock.is_paused Lock.is_leader_at Lock.is_leader Lock.set_expiry
    Lock.set_is_leader Lock.failsafe_is_active Lock.failsafe_set_is_active Lock.remember
    Lock.reset_backoff Lock.injects Lock.load_cluster_from_dcs Lock.answered Lock.remember_position
    Lock.update_lock Lock.publish_position Lock.is_up Lock.lets_publish Lock.is_running_primary
    Lock.is_new_primary Lock.notice_promotion Lock.touch_member Lock.forget_leader
    Lock.release_leader_key_voluntarily Primary.watchdog_is_ready Primary.give_up_without_watchdog
    Primary.failed Primary.reset_response Primary.is_primary_role Primary.submit_promotion
    Primary.is_prepared Primary.prepare_synchronous_replication Primary.promote_standby
    Primary.become_primary Primary.ask_and_become_primary Primary.check_and_become_primary
    Primary.enforce_primary_role Primary.is_primary_or_unpaused
    Primary.process_manual_failover_from_leader Primary.continue_as_leader Primary.or_continue
    Primary.with_updated_lock Primary.keep_lock Primary.hold_lock Primary.process_healthy_cluster
    Startup.set_start_timeout Startup.not_starting Startup.handle_starting_instance Run.sysid_valid
    Run.update_global_config Run.reload Run.note_pause Run.has_member Run.touch_missing_member
    Run.restore_initialize Run.restore_config Run.refresh Run.copy_slots Run.sync_replication_slots
    Run.handle_slots Run.is_promoting Run.lets_sync Run.finish_processing Run.process_healthy
    Run.process_cluster Run.check_health Run.check_sysid Run.check_data_directory Run.check_node
    Run.check_start Run.decide Run.finish_cycle Run.conclude Run.attempt Run.run_cycle_once
    Run.run_cycle Loop.take_turn Loop.loop Race.opt_eq State.requested text_eq
    Multisync.process_sync_replication_prepromote Base.all Base.any Follow.or_else
    Restart.evaluate_scheduled_restart Restart.evaluate_restart
run_cycles = (refl, refl, refl)

loop_promotes_with_key_example : permits Action.promote before_promotion ≡ true
loop_promotes_with_key_example =
    loop_promotes_with_key (turns true) start start-IsNew after_promotion before_promotion
      Action.promote run_cycles.0

-- A primary that holds the key, and whose update of the key fails.
abbrev lost : World
lost = record (world true) {
  answer = λ n q. elim q [ Question.primary_is_running ↦ true | other ↦ answer true other ];
  lock = λ n. ok false;
}

abbrev primary : Node
primary = record start {
  role = Role.primary;
  leader_expiry = 120;
  history = Event.cycle_started ∷ Event.update_leader true ∷ [];
}

abbrev demoted : Node
demoted = (Primary.process_healthy_cluster lost primary).1
