-- ===== src/Cycle/Safety/Following.antt =====
-- `follow` of patroni/ha.py keeps the invariant.
use patroni.Base.{◌≡◌, Bool, true, false, Option, none, some}
use patroni.Cycle.Exec.{Error, pure, raise, gets}
use patroni.Cycle.Node.{Role, Action, Call, Event, Message, Node, World, M, perform, set_role}
use patroni.Cycle.Follow.{
  Target, run_or_wait, starts, returns, handle_crash_recovery, recovery_before_rewind, or_rewind,
  rewind_or_reinitialize, handle_rewind_or_reinitialize, or_else, become_standby_leader,
  keep_following, change_recovery_conf, follow_target, follow_as_standby, demote_to_follow,
  follow_in_pause, follow_paused, follow_unpaused, follow,
}
use patroni.Cycle.Safety.{starts_primary, Keeps, KeepsKey, Goes}
use patroni.Cycle.Safety.Rules.{
  Keeps-pure, Keeps-gets, Keeps-raise, KeepsKey-bind, KeepsKey-if, KeepsKey-Keeps, Goes-bind,
  Goes-bind-key, Goes-seq, Goes-if, Goes-Keeps, Goes-KeepsKey,
}
use patroni.Cycle.Safety.Primitives.{
  keeps_rules, perform-Keeps, set_role-Keeps, try_run_async-KeepsKey,
}
use patroni.Cycle.Safety.Asking.{asks_is_primary-KeepsKey, asks_is_running-Keeps}
use patroni.Cycle.Safety.Demotion.{Goes-when, follow-Goes, demote-Goes}

pub run_or_wait-Keeps : (a : Action) (o : Option Action) → Keeps (run_or_wait a o)
unfolding run_or_wait
run_or_wait-Keeps a none = Keeps-pure _
run_or_wait-Keeps a (some b) = Keeps-pure _

pub starts-KeepsKey : (a : Action) → starts_primary a ≡ false → KeepsKey (starts a)
unfolding starts
starts-KeepsKey a e =
    KeepsKey-bind _ _ (try_run_async-KeepsKey a e) λ o. KeepsKey-Keeps _ (run_or_wait-Keeps a o)

pub returns-KeepsKey : (m : M Message) → KeepsKey m → KeepsKey (returns m)
unfolding returns
returns-KeepsKey m k = KeepsKey-bind _ _ k λ msg. KeepsKey-Keeps _ (Keeps-pure _)

pub ruleset key_rules = (
  KeepsKey-bind, KeepsKey-if, KeepsKey-Keeps, keeps_rules, asks_is_running-Keeps, returns-KeepsKey,
  starts-KeepsKey, try_run_async-KeepsKey,
)

pub handle_crash_recovery-KeepsKey : (w : World) → KeepsKey (handle_crash_recovery w)
unfolding handle_crash_recovery
handle_crash_recovery-KeepsKey w = search key_rules depth 12

recovery_before_rewind-KeepsKey : (w : World) (b : Bool) → KeepsKey (recovery_before_rewind w b)
unfolding recovery_before_rewind
recovery_before_rewind-KeepsKey w b = search (key_rules, handle_crash_recovery-KeepsKey) depth 12

or_rewind-KeepsKey : (o : Option Message) → KeepsKey (or_rewind o)
unfolding or_rewind
or_rewind-KeepsKey none = search key_rules
or_rewind-KeepsKey (some msg) = search key_rules

rewind_or_reinitialize-KeepsKey : (w : World) (b : Bool) → KeepsKey (rewind_or_reinitialize w b)
unfolding rewind_or_reinitialize
rewind_or_reinitialize-KeepsKey w true =
    search (key_rules, recovery_before_rewind-KeepsKey, or_rewind-KeepsKey) depth 12
rewind_or_reinitialize-KeepsKey w false = search key_rules depth 12

pub handle_rewind-KeepsKey : (w : World) → KeepsKey (handle_rewind_or_reinitialize w)
unfolding handle_rewind_or_reinitialize
handle_rewind-KeepsKey w = search (key_rules, rewind_or_reinitialize-KeepsKey) depth 12

pub or_else-Goes :
    {h q : Bool} (o : Option Message) (m : M Message) → Goes h q m → Goes h q (or_else o m)
unfolding or_else
or_else-Goes none m k = k
or_else-Goes (some msg) m k = Goes-Keeps _ (Keeps-pure msg)

pub Goes-pure : {A : Type 0} {h q : Bool} (a : A) → Goes h q (pure a)
Goes-pure a = Goes-Keeps _ (Keeps-pure a)

pub Goes-gets : {A : Type 0} {h q : Bool} (f : Node → A) → Goes h q (gets f)
Goes-gets f = Goes-Keeps _ (Keeps-gets f)

pub Goes-raise : {A : Type 0} {h q : Bool} (e : Error) → Goes h q (raise {A = A} e)
Goes-raise e = Goes-Keeps _ (Keeps-raise e)

pub Goes-call : (w : World) (c : Call) {h q : Bool} → Goes h q (perform w (Event.call c))
Goes-call w c = Goes-Keeps _ (perform-Keeps w c)

pub Goes-set_role : (role : Role) {h q : Bool} → Goes h q (set_role role)
Goes-set_role role = Goes-Keeps _ (set_role-Keeps role)

pub Goes-starts : (a : Action) {h q : Bool} → starts_primary a ≡ false → Goes h q (starts a)
Goes-starts a e = Goes-KeepsKey _ (starts-KeepsKey a e)

-- An action is taken apart from its end; each rule fits one way to build it.
pub ruleset goes_rules = (
  keeps_rules, Goes-pure, Goes-gets, Goes-raise, Goes-call, Goes-set_role, Goes-starts, Goes-if,
  Goes-when, or_else-Goes, Goes-bind, Goes-bind-key, Goes-seq, asks_is_primary-KeepsKey,
  asks_is_running-Keeps, handle_rewind-KeepsKey, follow-Goes, demote-Goes, try_run_async-KeepsKey,
)

become_standby_leader-Keeps : (w : World) (r : Role) → Keeps (become_standby_leader w r)
unfolding become_standby_leader
become_standby_leader-Keeps w r = search keeps_rules depth 12

module _ (w : World) where
  keep_following-Goes : (r : Role) (msg : Message) {h q : Bool} → Goes h q (keep_following w r msg)
  unfolding keep_following
  keep_following-Goes r msg = search (goes_rules, become_standby_leader-Keeps) depth 12

  change_recovery_conf-Goes :
      (r : Role) (msg : Message) {h q : Bool} → Goes h q (change_recovery_conf w r msg)
  unfolding change_recovery_conf
  change_recovery_conf-Goes r msg = search goes_rules depth 12

  follow_target-Goes : (t : Target) (msg : Message) {h q : Bool} → Goes h q (follow_target w t msg)
  unfolding follow_target
  follow_target-Goes t msg =
      search (goes_rules, keep_following-Goes, change_recovery_conf-Goes) depth 14

  follow_as_standby-Goes :
      (t : Target) (msg : Message) {h q : Bool} → Goes h q (follow_as_standby w t msg)
  unfolding follow_as_standby
  follow_as_standby-Goes t msg = search (goes_rules, follow_target-Goes) depth 14

  demote_to_follow-Goes : (msg : Message) {h q : Bool} → Goes h q (demote_to_follow w msg)
  unfolding demote_to_follow
  demote_to_follow-Goes msg = search goes_rules depth 12

  follow_in_pause-Goes :
      (b : Bool) (t : Target) (msg : Message) {h q : Bool} → Goes h q (follow_in_pause w b t msg)
  unfolding follow_in_pause
  follow_in_pause-Goes true t msg = search goes_rules
  follow_in_pause-Goes false t msg = search (goes_rules, follow_as_standby-Goes) depth 12

  follow_paused-Goes :
      (b : Bool) (t : Target) (msg : Message) {h q : Bool} → Goes h q (follow_paused w b t msg)
  unfolding follow_paused
  follow_paused-Goes b t msg =
      search (goes_rules, follow_in_pause-Goes, follow_as_standby-Goes) depth 12

  follow_unpaused-Goes :
      (b : Bool) (t : Target) (msg msg' : Message) {h q : Bool}
      → Goes h q (follow_unpaused w b t msg msg')
  unfolding follow_unpaused
  follow_unpaused-Goes true t msg msg' = demote_to_follow-Goes msg
  follow_unpaused-Goes false t msg msg' = follow_as_standby-Goes t msg'

  pub follow_decision-Goes :
      (msg msg' : Message) (b : Bool) {h q : Bool} → Goes h q (follow w msg msg' b)
  unfolding follow
  follow_decision-Goes msg msg' b =
      search (goes_rules, follow_paused-Goes, follow_unpaused-Goes) depth 14
