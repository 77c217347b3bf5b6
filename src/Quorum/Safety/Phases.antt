-- ===== src/Quorum/Safety/Phases.antt =====
-- Each phase of the resolver, and the whole iteration, makes checked transitions only.
use patroni.Base.{
  ◌≡◌, refl, sym, ◌∙◌, ap, ◌⊎◌, inl, inr, Bool, true, false, List, [], ◌++◌, text_eq, ℤ,
  if◌then◌else◌, arith, Bool-cases,
}
use patroni.Collections.CaseInsensitiveSet.{CaseInsensitiveSet}
use patroni.Quorum.State.{
  Error, Result, ok, err, assertion_error, Transition, Resolver, check_invariants,
}
use patroni.Quorum.Run.{M, pure, ◌>>=◌, except_quorum_error, recover, continue}
use patroni.Quorum.Resolver.Phases.{
  grow_sync, drop_dead_sync, grow_voters, trim_sync, reduce_margin, handle_non_steady_cases,
  remove_by_quorum, remove_by_numsync, remove_gone_nodes, add_up_to_factor, add_rest, add_new_nodes,
  handle_replication_factor_change,
}
use patroni.Quorum.Resolver.Iterate.{
  check_self, failover, check_leader, fall_back, check_or_failover, adjust_confirmed, assert_leader,
  steps, generate_transitions,
}
use patroni.Quorum.Safety.{
  replay, replay-append, AllChecked-append, continue-Follows, Follows, FollowsRun, IsSound,
  IsSound-if, IsSound-pure, sound_rules,
}

grow_sync-IsSound : IsSound grow_sync
unfolding grow_sync
grow_sync-IsSound = search sound_rules depth 14

drop_dead_sync-IsSound : IsSound drop_dead_sync
unfolding drop_dead_sync
drop_dead_sync-IsSound = search sound_rules depth 14

grow_voters-IsSound : IsSound grow_voters
unfolding grow_voters
grow_voters-IsSound = search sound_rules depth 14

trim_sync-IsSound : IsSound trim_sync
unfolding trim_sync
trim_sync-IsSound = search sound_rules depth 14

reduce_margin-IsSound : IsSound reduce_margin
unfolding reduce_margin
reduce_margin-IsSound = search sound_rules depth 14

ruleset steady_rules = (
  sound_rules, grow_sync-IsSound, drop_dead_sync-IsSound, grow_voters-IsSound, trim_sync-IsSound,
  reduce_margin-IsSound,
)

handle_non_steady_cases-IsSound : IsSound handle_non_steady_cases
unfolding handle_non_steady_cases
handle_non_steady_cases-IsSound = search steady_rules depth 14

remove_by_quorum-IsSound : (to_remove : CaseInsensitiveSet) → IsSound (remove_by_quorum to_remove)
unfolding remove_by_quorum
remove_by_quorum-IsSound to_remove = search sound_rules depth 14

remove_by_numsync-IsSound : (to_remove : CaseInsensitiveSet) → IsSound (remove_by_numsync to_remove)
unfolding remove_by_numsync
remove_by_numsync-IsSound to_remove = search sound_rules depth 14

remove_gone_nodes-IsSound : IsSound remove_gone_nodes
unfolding remove_gone_nodes
remove_gone_nodes-IsSound =
    search (sound_rules, remove_by_quorum-IsSound, remove_by_numsync-IsSound) depth 14

add_up_to_factor-IsSound :
    (sync_wanted : ℤ) (to_add : CaseInsensitiveSet) → IsSound (add_up_to_factor sync_wanted to_add)
unfolding add_up_to_factor
add_up_to_factor-IsSound sync_wanted to_add = search sound_rules depth 14

add_rest-IsSound :
    (sync_wanted : ℤ) (to_add : CaseInsensitiveSet) → IsSound (add_rest sync_wanted to_add)
unfolding add_rest
add_rest-IsSound sync_wanted to_add = search sound_rules depth 14

add_new_nodes-IsSound : IsSound add_new_nodes
unfolding add_new_nodes
add_new_nodes-IsSound = search (sound_rules, add_up_to_factor-IsSound, add_rest-IsSound) depth 14

handle_replication_factor_change-IsSound : IsSound handle_replication_factor_change
unfolding handle_replication_factor_change
handle_replication_factor_change-IsSound = search sound_rules depth 14

adjust_confirmed-IsSound : IsSound adjust_confirmed
unfolding adjust_confirmed
adjust_confirmed-IsSound = record {
  at = λ s. record {
    wanted = ground arith;
    checked = ground arith;
    published = λ a h. ground arith;
  };
}

assert_leader-IsSound : IsSound assert_leader
unfolding assert_leader
assert_leader-IsSound = search sound_rules depth 14

ruleset step_rules = (
  sound_rules, adjust_confirmed-IsSound, assert_leader-IsSound, handle_non_steady_cases-IsSound,
  remove_gone_nodes-IsSound, add_new_nodes-IsSound, handle_replication_factor_change-IsSound,
)

steps-IsSound : IsSound steps
unfolding steps
steps-IsSound = search step_rules depth 14

failover-IsSound : IsSound failover
unfolding failover
failover-IsSound = search sound_rules depth 14

-- A handler goes on from what is published: after an error nothing was assigned and kept back.
module _ {A : Type 0} (s : Resolver) (handler : M A) (sound : IsSound handler) where
  handle-FollowsRun :
      (e : Error) (s' : Resolver) (out : List Transition)
      → Follows {A = A} s (err e) s' out
      → replay s.state out ≡ s'.state
      → let r = handler s' in Follows s r.0 r.1 (out ++ r.2)
  handle-FollowsRun e s' out h p =
      let g = sound.at s' in
      record {
        wanted = g.wanted ∙ h.wanted;
        checked =
            AllChecked-append out (handler s').2 s.leader_wanted s.state h.checked
              (rw (p, ← h.wanted) g.checked);
        published = λ a q. replay-append out (handler s').2 s.state ∙ rw p (g.published a q);
      }

  recover-FollowsRun :
      (r : Result A) (s' : Resolver) (out : List Transition)
      → Follows s r s' out
      → ((e : Error) → r ≡ err e → replay s.state out ≡ s'.state)
      → FollowsRun s (recover r s' out handler)
  recover-FollowsRun (ok a) s' out h p = h
  recover-FollowsRun (err assertion_error) s' out h p = h
  recover-FollowsRun (err e) s' out h p = handle-FollowsRun e s' out h (p e refl)

check_self-IsSound : IsSound check_self
unfolding check_self
check_self-IsSound = record {
  at = λ s. record { wanted = refl; checked = tt; published = λ a h. refl };
}

check_keeps :
    (r : Result (Unit {0})) (s : Resolver) (e : Error)
    → let q = continue r s [] (λ _. pure false) in q.0 ≡ err e → replay s.state q.2 ≡ q.1.state
unfolding pure
check_keeps (ok a) s e h = cc
check_keeps (err e') s e h = refl

fall_back-IsSound : IsSound fall_back
unfolding fall_back
fall_back-IsSound = search sound_rules depth 14

check_leader-IsSound : IsSound check_leader
unfolding check_leader
check_leader-IsSound = search (sound_rules, check_self-IsSound, failover-IsSound) depth 14

-- The leader is the wanted one, or the `/sync` key can be moved to it.
abbrev pub CanFollow : Resolver → Type 0
CanFollow s = (text_eq s.leader_wanted s.leader ≡ true) ⊎ ((b : Bool) × ((failover s).0 ≡ ok b))

check_leader-eq :
    (s : Resolver) (b : Bool)
    → text_eq s.leader_wanted s.leader ≡ b
    → check_leader s ≡ (
        if b
        then continue (check_invariants s.leader_wanted s.state) s [] (λ _. pure false)
        else failover s)
unfolding check_leader check_self ◌>>=◌
check_leader-eq s true h = rw h
check_leader-eq s false h = rw h

check_leader-published_same :
    (s : Resolver) (e : Error)
    → text_eq s.leader_wanted s.leader ≡ true
    → (check_leader s).0 ≡ err e
    → replay s.state (check_leader s).2 ≡ (check_leader s).1.state
check_leader-published_same s e same h =
    let q = check_leader-eq s true same in
    rw q (
      check_keeps (check_invariants s.leader_wanted s.state) s e
        (ap (λ (r : Result Bool × Resolver × List Transition). r.0) (sym q) ∙ h))

check_leader-published :
    (s : Resolver) (e : Error)
    → CanFollow s
    → (check_leader s).0 ≡ err e
    → replay s.state (check_leader s).2 ≡ (check_leader s).1.state
check_leader-published s e (inl same) h = check_leader-published_same s e same h
check_leader-published s e (inr (b, p)) h = elim (Bool-cases (text_eq s.leader_wanted s.leader)) [
  | inl t ↦ check_leader-published_same s e t h
  | inr f ↦ ground (arith, check_leader-eq s false f)
]

check_or_failover-FollowsRun : (s : Resolver) → CanFollow s → FollowsRun s (check_or_failover s)
unfolding check_or_failover except_quorum_error
check_or_failover-FollowsRun s h =
    recover-FollowsRun s fall_back fall_back-IsSound (check_leader s).0 (check_leader s).1
      (check_leader s).2 (check_leader-IsSound.at s) (λ e p. check_leader-published s e h p)

pub generate_transitions-FollowsRun :
    (s : Resolver) → CanFollow s → FollowsRun s (generate_transitions s)
unfolding generate_transitions ◌>>=◌
generate_transitions-FollowsRun s h =
    continue-Follows s (check_or_failover s).0 (check_or_failover s).1 (check_or_failover s).2
      (λ b. if b then pure tt else steps) (check_or_failover-FollowsRun s h)
      (λ b. IsSound-if b (pure tt) steps (IsSound-pure tt) steps-IsSound)
