-- ===== src/Cycle/Safety/Running.antt =====
-- About `run_cycle` of patroni/ha.py, one cycle.
use patroni.Base.{refl, ℕ, Bool, true, false, ◌∷◌, arith}
use patroni.Cycle.Exec.{Error, Result, ok, err, pure, modify, ◌>>=◌}
use patroni.Cycle.Node.{Event, Message, Node, World, M, log, read, next}
use patroni.Cycle.Lock.{set_expiry, set_is_leader}
use patroni.Cycle.Run.{
  initialize_or_abort, check_initialize, check_sysid, release_without_data, new_node, without_data,
  check_data_directory, finish_recovery, recover_unless_rewind, after_recovery, check_node,
  check_start, decide, check_failsafe_topology, continue_in_failsafe, demote_without_dcs,
  accepted_in_failsafe, primary_without_dcs, standby_without_dcs, running_without_dcs,
  active_without_dcs, handle_dcs_error, finish_cycle, conclude, attempt, run_cycle_once,
  report_exception, run_cycle,
}
use patroni.Cycle.Safety.{
  holds, quiet, vouched, promotes_with_key, releases_quietly, At, Keeps, Goes,
}
use patroni.Cycle.Safety.Rules.{forget, KeepsKey-if, KeepsKey-Keeps, Goes-seq, Goes-catch}
use patroni.Cycle.Safety.Primitives.{keeps_rules}
use patroni.Cycle.Safety.Demotion.{stop-bind, release-Goes}
use patroni.Cycle.Safety.Following.{goes_rules}
use patroni.Cycle.Safety.Starting.{long_action-Goes, starting-Goes, post_recover-Goes}
use patroni.Cycle.Safety.Bootstrapping.{bootstrap-Goes, post_bootstrap-Goes}
use patroni.Cycle.Safety.Cycles.{
  check_health-Goes, sysid_mismatch-Goes, refresh-Keeps, sync_slots-Keeps,
}

-- All members accepted this node: from now on it takes itself for the leader.

accepted-At :
    (expiry tick : ℕ) (s : Node)
    → At false false s
    → At false false (record s {
      history = Event.failsafe_accepted ∷ s.history;
      leader_expiry = expiry;
      tick = tick;
    })
unfolding promotes_with_key releases_quietly vouched holds quiet
accepted-At expiry tick s v = record {
  promotes = v.promotes;
  releases = v.releases;
  leads = ground arith;
  key = refl;
  calm = refl;
}

accepted-Goes :
    {B : Type 0} (w : World) (f : Unit {0} → M B) {h q : Bool}
    → ((a : Unit {0}) → Goes false false (f a))
    → Goes h q (log Event.failsafe_accepted >>= λ _. set_is_leader w true >>= f)
unfolding log modify set_is_leader set_expiry read next pure ◌>>=◌
accepted-Goes w f k = record { at = λ s v. (k tt).at _ (accepted-At _ _ s (forget v)) }

-- What was raised, or not, is a value.
attempt-Goes :
    {A B : Type 0} (m : M A) (f : Result A → M B) {h q : Bool}
    → Goes h q m
    → ((r : Result A) → Goes false false (f r))
    → Goes h q (attempt m >>= f)
unfolding attempt ◌>>=◌
attempt-Goes m f km k = record { at = λ s v. let (r, s') = m s in (k r).at s' (km.at s v) }

module _ (w : World) where
  initialize_or_abort-Goes : {h q : Bool} → Goes h q (initialize_or_abort w)
  unfolding initialize_or_abort
  initialize_or_abort-Goes =
      search (goes_rules, KeepsKey-if, KeepsKey-Keeps, check_health-Goes) depth 12

  check_initialize-Goes : {h q : Bool} → Goes h q (check_initialize w)
  unfolding check_initialize
  check_initialize-Goes = search (goes_rules, initialize_or_abort-Goes, check_health-Goes)

  check_sysid-Goes : {h q : Bool} → Goes h q (check_sysid w)
  unfolding check_sysid
  check_sysid-Goes =
      search (goes_rules, check_health-Goes, sysid_mismatch-Goes, check_initialize-Goes) depth 14

  release_without_data-Goes : (b : Bool) {h : Bool} → Goes h true (release_without_data w b)
  unfolding release_without_data
  release_without_data-Goes b = search (goes_rules, release-Goes)

  new_node-Goes : (b : Bool) {h q : Bool} → Goes h q (new_node w b)
  unfolding new_node
  new_node-Goes b = search (goes_rules, bootstrap-Goes) depth 12

  without_data-Goes : (b : Bool) {h q : Bool} → Goes h q (without_data w b)
  unfolding without_data
  without_data-Goes b =
      search (stop-bind, goes_rules, release_without_data-Goes, new_node-Goes) depth 14

  check_data-Goes : {h q : Bool} → Goes h q (check_data_directory w)
  unfolding check_data_directory
  check_data-Goes = search (goes_rules, without_data-Goes, check_sysid-Goes) depth 12

  finish_recovery-Goes : {h q : Bool} → Goes h q (finish_recovery w)
  unfolding finish_recovery
  finish_recovery-Goes = search (goes_rules, check_data-Goes) depth 14

  unless_rewind-Goes : (b : Bool) {h q : Bool} → Goes h q (recover_unless_rewind w b)
  unfolding recover_unless_rewind
  unless_rewind-Goes true = search goes_rules
  unless_rewind-Goes false = post_recover-Goes w

  after_recovery-Goes : {h q : Bool} → Goes h q (after_recovery w)
  unfolding after_recovery
  after_recovery-Goes = search (goes_rules, unless_rewind-Goes, finish_recovery-Goes) depth 12

  check_node-Goes : {h q : Bool} → Goes h q (check_node w)
  unfolding check_node
  check_node-Goes =
      search (goes_rules, post_bootstrap-Goes, after_recovery-Goes, check_data-Goes) depth 12

  check_start-Goes : {h q : Bool} → Goes h q (check_start w)
  unfolding check_start
  check_start-Goes = search (goes_rules, starting-Goes, check_node-Goes)

  decide-Goes : {h q : Bool} → Goes h q (decide w)
  unfolding decide
  decide-Goes = search (goes_rules, refresh-Keeps, long_action-Goes, check_start-Goes) depth 12

  topology-Keeps : Keeps (check_failsafe_topology w)
  unfolding check_failsafe_topology
  topology-Keeps = search keeps_rules

  in_failsafe-Keeps : Keeps (accepted_in_failsafe w)
  unfolding accepted_in_failsafe
  in_failsafe-Keeps = search (keeps_rules, topology-Keeps)

  continue-Goes : {h q : Bool} → Goes h q (continue_in_failsafe w)
  unfolding continue_in_failsafe
  continue-Goes = accepted-Goes w _ λ _. search (goes_rules, sync_slots-Keeps) depth 12

  demote_without_dcs-Goes : {h q : Bool} → Goes h q (demote_without_dcs w)
  unfolding demote_without_dcs
  demote_without_dcs-Goes = search goes_rules depth 12

  primary_without_dcs-Goes : {h q : Bool} → Goes h q (primary_without_dcs w)
  unfolding primary_without_dcs
  primary_without_dcs-Goes =
      search (goes_rules, in_failsafe-Keeps, continue-Goes, demote_without_dcs-Goes)

  standby_without_dcs-Goes : {h q : Bool} → Goes h q (standby_without_dcs w)
  unfolding standby_without_dcs
  standby_without_dcs-Goes = search (goes_rules, sync_slots-Keeps)

  running_without_dcs-Goes : {h q : Bool} → Goes h q (running_without_dcs w)
  unfolding running_without_dcs
  running_without_dcs-Goes = search (goes_rules, primary_without_dcs-Goes, standby_without_dcs-Goes)

  active_without_dcs-Goes : {h q : Bool} → Goes h q (active_without_dcs w)
  unfolding active_without_dcs
  active_without_dcs-Goes = search (goes_rules, running_without_dcs-Goes)

  pub handle_dcs_error-Goes : {h q : Bool} → Goes h q (handle_dcs_error w)
  unfolding handle_dcs_error
  handle_dcs_error-Goes = search (goes_rules, active_without_dcs-Goes)

  finish_cycle-Keeps : Keeps (finish_cycle w)
  unfolding finish_cycle
  finish_cycle-Keeps = search keeps_rules depth 12

  conclude-Goes : (r : Result Message) {h q : Bool} → Goes h q (conclude w r)
  unfolding conclude
  conclude-Goes (ok msg) = search (goes_rules, finish_cycle-Keeps)
  conclude-Goes (err Error.dcs_error) = handle_dcs_error-Goes
  conclude-Goes (err _) = search (goes_rules, finish_cycle-Keeps)

  once-Goes : {h q : Bool} → Goes h q (run_cycle_once w)
  unfolding run_cycle_once
  once-Goes = attempt-Goes _ _ decide-Goes λ r. conclude-Goes r

  reported-Goes : (e : Error) {h q : Bool} → Goes h q (report_exception e)
  unfolding report_exception
  reported-Goes Error.fatal = search goes_rules
  reported-Goes Error.exit = search goes_rules
  reported-Goes _ = search goes_rules

started-Goes : {h q : Bool} → Goes h q (log Event.cycle_started)
unfolding log modify promotes_with_key releases_quietly vouched holds quiet
started-Goes = record {
  at = λ s v. record {
    promotes = v.promotes;
    releases = v.releases;
    leads = v.leads;
    key = refl;
    calm = refl;
  };
}

pub run_cycle-Goes : (w : World) {h q : Bool} → Goes h q (run_cycle w)
unfolding run_cycle
run_cycle-Goes w =
    Goes-seq _ _ started-Goes λ _.
      Goes-seq _ _ (Goes-catch _ _ (once-Goes w) λ e. reported-Goes w e) λ msg. search goes_rules
