-- ===== src/Quorum/Safety/Merge.antt =====
-- `__iter__` leaves out transitions that nobody has to see.
use patroni.Base.{
  ◌≡◌, refl, sym, ◌∙◌, ap, inl, inr, true, false, List, [], ◌∷◌, Text, arith, Bool-cases,
}
use patroni.Quorum.State.{
  ok, sync_transition, quorum_transition, restart_transition, TransitionType, Transition, Published,
  Resolver,
}
use patroni.Quorum.Resolver.Iterate.{same_type, merge, generate_transitions, transitions}
use patroni.Quorum.Safety.{apply_as, apply, replay, AllChecked}
use patroni.Quorum.Safety.Phases.{CanFollow, generate_transitions-FollowsRun}

apply_as_twice :
    (a b : TransitionType) (t u : Transition) (p : Published)
    → same_type a b ≡ true
    → apply_as b u (apply_as a t p) ≡ apply_as b u p
unfolding same_type
apply_as_twice sync_transition sync_transition t u p h = refl
apply_as_twice quorum_transition quorum_transition t u p h = refl
apply_as_twice restart_transition restart_transition t u p h = refl
apply_as_twice _ _ t u p h = cc

-- Of neighbours of one type the second alone has the effect of both.
apply_twice :
    (t u : Transition) (p : Published)
    → same_type t.transition_type u.transition_type ≡ true
    → apply (apply p t) u ≡ apply p u
apply_twice t u p h = apply_as_twice t.transition_type u.transition_type t u p h

AllChecked-skip :
    (t u : Transition) (ts : List Transition) (w : Text) (p : Published)
    → same_type t.transition_type u.transition_type ≡ true
    → AllChecked w p (t ∷ u ∷ ts)
    → AllChecked w p (u ∷ ts)
AllChecked-skip t u ts w p h c = rw (apply_twice t u p h) at c.1

pub merge-AllChecked :
    (ts : List Transition) (w : Text) (p : Published)
    → AllChecked w p ts
    → AllChecked w p (merge ts)
unfolding merge
merge-AllChecked [] w p c = tt
merge-AllChecked (t ∷ []) w p c = c
merge-AllChecked (t ∷ u ∷ ts) w p c =
    elim (Bool-cases (same_type t.transition_type u.transition_type)) [
      | inl e ↦ rw e (merge-AllChecked (u ∷ ts) w p (AllChecked-skip t u ts w p e c))
      | inr e ↦ elim (Bool-cases (same_type t.transition_type restart_transition)) [
        | inl r ↦ rw (e, r) (c.0, tt)
        | inr r ↦ rw (e, r) (c.0, merge-AllChecked (u ∷ ts) w (apply p t) c.1)
      ]
    ]

transitions-eq_ok :
    (s : Resolver) (ts : List Transition)
    → transitions s ≡ ok ts
    → ((generate_transitions s).0 ≡ ok tt) × (ts ≡ merge (generate_transitions s).2)
unfolding transitions
transitions-eq_ok s ts h = ground arith

-- If the leader is the wanted one, or the steps that move `/sync` to it do not raise, and the
-- iteration ends without an error, then no transition that the resolver yields leaves `/sync` and
-- `synchronous_standby_names` in a state that `check_invariants` refuses, whatever the caller stops
-- at.
pub transitions-AllChecked :
    (s : Resolver) (ts : List Transition)
    → CanFollow s
    → transitions s ≡ ok ts
    → AllChecked s.leader_wanted s.state ts
transitions-AllChecked s ts can h =
    let (done, e) = transitions-eq_ok s ts h in
    rw e (
      merge-AllChecked (generate_transitions s).2 s.leader_wanted s.state
        (generate_transitions-FollowsRun s can).checked)

abbrev pub NoRestart : List Transition → Type 0
NoRestart [] = Unit {0}
NoRestart (t ∷ ts) = (same_type t.transition_type restart_transition ≡ false) × NoRestart ts

replay-merge :
    (ts : List Transition) (p : Published) → NoRestart ts → replay p (merge ts) ≡ replay p ts
unfolding merge
replay-merge [] p n = refl
replay-merge (t ∷ []) p n = refl
replay-merge (t ∷ u ∷ ts) p n = elim (Bool-cases (same_type t.transition_type u.transition_type)) [
  | inl e ↦ rw e (replay-merge (u ∷ ts) p n.1 ∙ ap (λ q. replay q ts) (sym (apply_twice t u p e)))
  | inr e ↦ rw (e, n.0) (replay-merge (u ∷ ts) (apply p t) n.1)
]

-- Under the same conditions, and without a `restart`, the caller that makes what is yielded ends in the resolver's own state.
pub replay-transitions :
    (s : Resolver) (ts : List Transition)
    → CanFollow s
    → transitions s ≡ ok ts
    → NoRestart (generate_transitions s).2
    → replay s.state ts ≡ (generate_transitions s).1.state
replay-transitions s ts can h n =
    let (done, e) = transitions-eq_ok s ts h in
    rw e (
      replay-merge (generate_transitions s).2 s.state n
      ∙ (generate_transitions-FollowsRun s can).published tt done)
