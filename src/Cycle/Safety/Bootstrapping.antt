-- ===== src/Cycle/Safety/Bootstrapping.antt =====
-- Bootstrap and scheduled restarts of patroni/ha.py keep the invariant.
use patroni.Base.{
  List, not, subst, sym, ◌≡◌, refl, ℕ, Bool, true, false, ◌∷◌, suc, Option, none, some, arith,
  if◌then◌else◌,
}
use patroni.Cycle.Exec.{Error, Result, pure, raise, gets, modify, finally, continue, ◌>>=◌, ◌>>◌}
use patroni.Cycle.Node.{
  Action, Event, Message, Restart, Node, World, M, next, read, try_run_async, log, perform,
  raise_some,
}
use patroni.Cycle.Lock.{set_expiry, set_is_leader}
use patroni.Cycle.Bootstrap.{
  race_for_initialization, bootstrap_from_member, bootstrap, cancel_initialization,
  initialize_cluster, run_post_bootstrap, finish_bootstrap, post_bootstrap,
}
use patroni.Cycle.Follow.{run_or_wait, starts}
use patroni.Cycle.Primary.{reset_response}
use patroni.Cycle.Restart.{
  delete_future_restart, initiate_restart, restart, restart_when_due, evaluate_restart,
  evaluate_scheduled_restart,
}
use patroni.Cycle.Safety.{
  permits, won, holds, quiet, vouched, promotes_with_key, releases_quietly, At, Keeps, KeepsKey,
  Goes,
}
use patroni.Cycle.Safety.Rules.{forget, Goes-bind, Goes-continue, Goes-Keeps}
use patroni.Cycle.Safety.Primitives.{keeps_rules, perform-Keeps, ask-Keeps, try_run_async-At}
use patroni.Cycle.Safety.Demotion.{stop-bind}
use patroni.Cycle.Safety.Following.{goes_rules, key_rules, run_or_wait-Keeps}
use patroni.Cycle.Safety.Leading.{should_run-Keeps}
use patroni.Cycle.Safety.Starting.{set_start_timeout-Keeps}

-- `take_leader` was called: from now on the node takes itself for the leader.
taken-At :
    (h q : Bool) (expiry tick : ℕ) (s : Node)
    → At h q s
    → At false false
        (record s { history = Event.take_leader ∷ s.history; leader_expiry = expiry; tick = tick })
unfolding promotes_with_key releases_quietly vouched holds quiet
taken-At h q expiry tick s v = record {
  promotes = v.promotes;
  releases = v.releases;
  leads = ground arith;
  key = refl;
  calm = refl;
}

module _ {B : Type 0} (w : World) (f : Unit {0} → M B) where
  -- What follows the call that takes the key, which may have raised.
  take_over :
      (o : Option Error) (h q : Bool) (s : Node)
      → ((a : Unit {0}) → Goes false false (f a))
      → At h q s
      → At false false
          ((raise_some o >>= λ _. set_is_leader w true >>= f)
            (record s { history = Event.take_leader ∷ s.history; tick = suc s.tick })).1
  unfolding raise_some raise pure ◌>>=◌ set_is_leader set_expiry read next modify
  take_over none h q s k v = (k tt).at _ (taken-At h q _ _ s v)
  take_over (some e) h q s k v = taken-At h q s.leader_expiry (suc s.tick) s v

  take_leader-Goes :
      {h q : Bool}
      → ((a : Unit {0}) → Goes false false (f a))
      → Goes h q (perform w Event.take_leader >>= λ _. set_is_leader w true >>= f)
  unfolding perform log modify next ◌>>=◌
  take_leader-Goes {h} {q} k = record { at = λ s v. take_over (w.raises s.tick) h q s k v }

module _ {A : Type 0} where
  concluded :
      (r : Result A) (r' : Result (Unit {0})) (s : Node) → (continue r' (λ _ t. (r, t)) s).1 ≡ s
  concluded r (Result.ok a) s = refl
  concluded r (Result.err e) s = refl

  Goes-finally :
      {h q : Bool} (m : M A) (n : M (Unit {0})) → KeepsKey m → Keeps n → Goes h q (finally m n)
  unfolding finally
  Goes-finally {h} {q} m n km kn = record {
    at = λ s v.
        let (r, s') = m s in
        subst (At false false) (sym (concluded r (n s').0 (n s').1))
          (forget (kn.at h false s' (km.at h q s v)));
  }

started-At :
    (a : Action) {h q : Bool} (s : Node)
    → permits a s.history ≡ true
    → At h q s
    → At false false (starts a s).1
unfolding starts ◌>>=◌
started-At a s g v =
    let (r, s') = try_run_async a s in
    (Goes-continue r (run_or_wait a) (λ o. Goes-Keeps _ (run_or_wait-Keeps a o))).at s'
      (try_run_async-At a _ _ s g v)

module _ (w : World) where
  race-Keeps : (b : Bool) → Keeps (log (Event.race_for_initialize b))
  unfolding log modify promotes_with_key releases_quietly vouched holds quiet
  race-Keeps b = record {
    at = λ h q s v. record {
      promotes = v.promotes;
      releases = v.releases;
      leads = v.leads;
      key = v.key;
      calm = v.calm;
    };
  }

  won_permits :
      (b : Bool) (past : List Event)
      → permits
          (if b then Action.bootstrap_standby_leader else Action.bootstrap)
          (Event.race_for_initialize true ∷ past)
        ≡ true
  unfolding permits won
  won_permits true past = refl
  won_permits false past = refl

  won-At :
      {h q : Bool} (s : Node)
      → At h q s
      → At false false
          ((do
            log (Event.race_for_initialize true)
            standby_cluster ← gets (λ s. s.ha.is_standby_cluster)
            modify (λ s. record s { bootstrapping = true })
            reset_response
            starts (if standby_cluster then Action.bootstrap_standby_leader else Action.bootstrap))
            s).1
  unfolding log gets modify reset_response ◌>>=◌ promotes_with_key releases_quietly vouched holds
      quiet
  won-At {h} {q} s v =
      started-At _ {h = h} {q = q} _ (won_permits s.ha.is_standby_cluster s.history) (record {
        promotes = v.promotes;
        releases = v.releases;
        leads = v.leads;
        key = v.key;
        calm = v.calm;
      })

  raced-Goes :
      (wins : Bool) {h q : Bool}
      → Goes h q (do
        log (Event.race_for_initialize wins)
        standby_cluster ← gets (λ s. s.ha.is_standby_cluster)
        if not wins then pure Message.failed_to_acquire_initialize_lock else (do
          modify (λ s. record s { bootstrapping = true })
          reset_response
          starts (if standby_cluster then Action.bootstrap_standby_leader else Action.bootstrap)))
  raced-Goes true = record { at = λ s v. won-At s v }
  raced-Goes false = search (goes_rules, race-Keeps)

  race_for_init-Goes : {h q : Bool} → Goes h q (race_for_initialization w)
  unfolding race_for_initialization
  race_for_init-Goes =
      Goes-bind _ _ (perform-Keeps w _) λ _. Goes-bind _ _ (ask-Keeps w _) λ wins. raced-Goes wins

  from_member-Goes : {h q : Bool} → Goes h q (bootstrap_from_member w)
  unfolding bootstrap_from_member
  from_member-Goes = search goes_rules depth 12

  pub bootstrap-Goes : {h q : Bool} → Goes h q (bootstrap w)
  unfolding bootstrap
  bootstrap-Goes = search (goes_rules, race_for_init-Goes, from_member-Goes) depth 12

  cancel-Goes : {h q : Bool} → Goes h q (cancel_initialization w)
  unfolding cancel_initialization
  cancel-Goes = search (stop-bind, goes_rules) depth 12

  initialize_cluster-Goes : {h q : Bool} → Goes h q (initialize_cluster w)
  unfolding initialize_cluster
  initialize_cluster-Goes = Goes-bind _ _ (perform-Keeps w _) λ _.
      Goes-bind _ _ (perform-Keeps w _) λ _.
        Goes-bind _ _ (perform-Keeps w _) λ _. take_leader-Goes w _ λ _. search goes_rules depth 12

  run_post-Goes : {h q : Bool} → Goes h q (run_post_bootstrap w)
  unfolding run_post_bootstrap
  run_post-Goes = search goes_rules depth 12

  finish-Goes : {h q : Bool} → Goes h q (finish_bootstrap w)
  unfolding finish_bootstrap
  finish-Goes = search (goes_rules, cancel-Goes, initialize_cluster-Goes) depth 12

  pub post_bootstrap-Goes : {h q : Bool} → Goes h q (post_bootstrap w)
  unfolding post_bootstrap
  post_bootstrap-Goes = search (goes_rules, cancel-Goes, run_post-Goes, finish-Goes) depth 12

  delete_restart-Keeps : Keeps (delete_future_restart w)
  unfolding delete_future_restart
  delete_restart-Keeps = search keeps_rules depth 12

  initiate-Keeps : (r : Restart) (o : Option Action) → Keeps (initiate_restart w r o)
  unfolding initiate_restart
  initiate-Keeps r none = search (keeps_rules, set_start_timeout-Keeps) depth 12
  initiate-Keeps r (some a) = search keeps_rules

  restart-KeepsKey : (r : Restart) → KeepsKey (restart w r)
  unfolding restart
  restart-KeepsKey r = search (key_rules, initiate-Keeps) depth 12

  restart_when_due-Goes : (r : Restart) {h q : Bool} → Goes h q (restart_when_due w r)
  unfolding restart_when_due
  restart_when_due-Goes r =
      search (goes_rules, should_run-Keeps, delete_restart-Keeps, Goes-finally, restart-KeepsKey)
        depth 12

  evaluate_restart-Goes : (o : Option Restart) {h q : Bool} → Goes h q (evaluate_restart w o)
  unfolding evaluate_restart
  evaluate_restart-Goes none = search goes_rules
  evaluate_restart-Goes (some r) =
      search (goes_rules, delete_restart-Keeps, restart_when_due-Goes) depth 12

  pub scheduled_restart-Goes : {h q : Bool} → Goes h q (evaluate_scheduled_restart w)
  unfolding evaluate_scheduled_restart
  scheduled_restart-Goes = search (goes_rules, evaluate_restart-Goes) depth 12
