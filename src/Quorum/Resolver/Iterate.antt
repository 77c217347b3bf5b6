-- ===== src/Quorum/Resolver/Iterate.antt =====
-- `_generate_transitions` and `__iter__` of patroni/quorum.py.
use patroni.Base.{
  Bool, true, false, not, ◌&&◌, none, some, List, [], ◌∷◌, text_eq, pos, ◌-ℤ◌, eqb_ℤ, min_ℤ, null,
  if◌then◌else◌,
}
use patroni.Collections.CaseInsensitiveSet.{init, union, inter, diff}
use patroni.Quorum.State.{
  Result, ok, err, sync_transition, quorum_transition, restart_transition, TransitionType,
  Transition, Resolver, check_invariants,
}
use patroni.Quorum.Run.{M, pure, ◌>>=◌, ◌>>◌, get, when, assert, except_quorum_error}
use patroni.Quorum.Resolver.Updates.{quorum_update, sync_update}
use patroni.Quorum.Resolver.Phases.{
  size, handle_non_steady_cases, remove_gone_nodes, add_new_nodes, handle_replication_factor_change,
}

unfoldable pub check_self : M (Unit {0})
check_self s = (check_invariants s.leader_wanted s.state, s, [])

-- The leader changed: `true` where the generator returns.
unfoldable pub failover : M Bool
failover = do
  s ← get
  let voters = union (diff s.voters (init (s.leader_wanted ∷ []))) (init (s.leader ∷ []))
  when (null s.sync) (sync_update (size voters -ℤ s.quorum) (init voters))
  s ← get
  quorum_update s.quorum (init voters) (some s.leader_wanted) true
  s ← get
  pure (null (inter s.sync s.active))

-- The body of the `try`.
unfoldable pub check_leader : M Bool
check_leader = do
  s ← get
  if text_eq s.leader_wanted s.leader then (do check_self; pure false) else failover

-- Its handler.
unfoldable pub fall_back : M Bool
fall_back = do s ← get; quorum_update (size s.sync -ℤ s.numsync) s.sync none true; pure false

unfoldable pub check_or_failover : M Bool
check_or_failover = except_quorum_error check_leader fall_back

unfoldable pub adjust_confirmed : M (Unit {0})
adjust_confirmed s =
    let both = inter s.sync s.active in
    if eqb_ℤ s.numsync_confirmed (pos 0) && not (null both)
    then (ok tt, record s { numsync_confirmed = min_ℤ (size both) (size s.voters -ℤ s.quorum) }, [])
    else (ok tt, s, [])

unfoldable pub assert_leader : M (Unit {0})
assert_leader = do s ← get; assert (text_eq s.leader s.leader_wanted)

unfoldable pub steps : M (Unit {0})
steps = do
  assert_leader
  adjust_confirmed
  handle_non_steady_cases
  remove_gone_nodes
  add_new_nodes
  handle_replication_factor_change

unfoldable pub generate_transitions : M (Unit {0})
generate_transitions = do returns ← check_or_failover; if returns then pure tt else steps

unfoldable pub same_type : TransitionType → TransitionType → Bool
same_type sync_transition sync_transition = true
same_type quorum_transition quorum_transition = true
same_type restart_transition restart_transition = true
same_type _ _ = false

-- The loop of `__iter__`: of neighbours of one type the last is yielded, and nothing after `restart`.
unfoldable pub merge : List Transition → List Transition
unfolding same_type
merge [] = []
merge (t ∷ []) = t ∷ []
merge (t ∷ u ∷ ts) =
    let rest = merge (u ∷ ts) in
    if same_type t.transition_type u.transition_type
    then rest
    else if same_type t.transition_type restart_transition
    then t ∷ []
    else t ∷ rest

-- `list(resolver)`
unfoldable pub transitions : Resolver → Result (List Transition)
transitions r =
    let (result, s, out) = generate_transitions r in
    elim result [ ok _ ↦ ok (merge out) | err e ↦ err e ]
