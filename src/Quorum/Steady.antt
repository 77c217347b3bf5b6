-- ===== src/Quorum/Steady.antt =====
-- In the optimal state of patroni/quorum.py's docstring nothing is left to do.
use patroni.Base.{
  subst, ◌≡◌, refl, sym, ap, ◌∙◌, ◌+◌, ◌≤◌, true, false, List, [], ◌∷◌, Text, text_eq, text_eq_refl,
  ℤ, pos, ◌+ℤ◌, ◌-ℤ◌, ◌≤ℤ◌, leb_ℤ, ltb_ℤ, eqb_ℤ, min_ℤ, int_laws, arith, not, ◌&&◌, null, inl, inr,
  Bool-cases, ltb_ℤ-eq_false,
}
use patroni.Collections.CaseInsensitiveSet.{
  CaseInsensitiveSet, contains, len, union, inter, issubset, lt,
}
use patroni.Collections.CaseInsensitiveSet.Membership.{contains-init, contains-union}
use patroni.Collections.CaseInsensitiveSet.Size.{
  IsDistinct, Subset, len-le_of_subset, len-eq_of_subset, len-union_same, diff_subset, eq_of_Subset,
  issubset_of_Subset, init-IsDistinct, union-IsDistinct,
}
use patroni.Quorum.State.{Result, ok, err, Transition, Resolver, with_name, check_invariants}
use patroni.Quorum.Run.{◌>>=◌, ◌>>◌, except_quorum_error}
use patroni.Quorum.Resolver.Phases.{
  size, reduce_margin, handle_non_steady_cases, remove_gone_nodes, add_new_nodes,
  handle_replication_factor_change,
}
use patroni.Quorum.Resolver.Iterate.{
  check_self, check_leader, check_or_failover, adjust_confirmed, assert_leader, steps,
  generate_transitions, merge, transitions,
}

-- `voters` and `sync` are the same nodes, and the leader is the wanted one.
pub record IsSettled (s : Resolver) : Type 0 where
  pub leader : s.leader_wanted ≡ s.leader
  pub distinct_voters : IsDistinct s.voters
  pub distinct_sync : IsDistinct s.sync
  pub voters_in_sync : Subset s.voters s.sync
  pub sync_in_voters : Subset s.sync s.voters

-- `sync = voters = active`, `numsync = min(sync_wanted, len(active))`,
-- `quorum = len(active) - numsync`, however many nodes are confirmed.
pub record IsOptimal (s : Resolver) : Type 0 where
  pub settled : IsSettled s
  pub distinct_active : IsDistinct s.active
  pub sync_in_active : Subset s.sync s.active
  pub active_in_sync : Subset s.active s.sync
  pub numsync : s.numsync ≡ min_ℤ s.sync_wanted (size s.active)
  pub quorum : s.quorum ≡ size s.active -ℤ s.numsync

-- A set with one name more grows by one at most.
pub len-with_name-le :
    (a b : CaseInsensitiveSet) (name : Text)
    → Subset b a
    → len (union (with_name a name) (with_name b name)) ≤ len a + 1
unfolding contains
len-with_name-le a b name h = omega (
  arith,
  len-le_of_subset (union (with_name a name) (with_name b name)) (name ∷ a)
      (union-IsDistinct (with_name a name) (with_name b name)) inside,
)
  where
    inside : Subset (union (with_name a name) (with_name b name)) (name ∷ a)
    inside w = simp (contains-union, contains-init) (ground (arith, h w))

pub with_name-Subset :
    (a b : CaseInsensitiveSet) (name : Text)
    → Subset a b
    → Subset (with_name a name) (with_name b name)
with_name-Subset a b name h w = simp (contains-union, contains-init) (ground (arith, h w))

leb_ℤ-eq_true : (a b : ℤ) → a ≤ℤ b → leb_ℤ a b ≡ true
leb_ℤ-eq_true a b h = ground arith

-- Settled sets pass the check where the counts reach the number of voters.
pub check_invariants_settled :
    (s : Resolver)
    → IsSettled s
    → size s.voters ≤ℤ s.quorum +ℤ s.numsync
    → check_invariants s.leader_wanted s.state ≡ ok tt
unfolding check_invariants
check_invariants_settled s i h = rw i.leader (rw (enough, nested) (ground arith))
  where
    enough :
        leb_ℤ
          (pos (len (union (with_name s.voters s.leader) (with_name s.sync s.leader))))
          (s.quorum +ℤ s.numsync +ℤ pos 1)
        ≡ true
    enough =
        leb_ℤ-eq_true (pos (len (union (with_name s.voters s.leader) (with_name s.sync s.leader))))
          (s.quorum +ℤ s.numsync +ℤ pos 1)
          (omega (int_laws, len-with_name-le s.voters s.sync s.leader i.sync_in_voters))

    nested : issubset (with_name s.voters s.leader) (with_name s.sync s.leader) ≡ true
    nested =
        issubset_of_Subset _ _ (init-IsDistinct _)
          (with_name-Subset s.voters s.sync s.leader i.voters_in_sync)

pub sub-add_cancel : (a b : ℤ) → a -ℤ b +ℤ b ≡ a
sub-add_cancel a b = omega int_laws

pub sub_self : (a : ℤ) → a -ℤ a ≡ pos 0
sub_self a = omega int_laws

lt_same : (a b : CaseInsensitiveSet) → len a ≡ len b → lt a b ≡ false
unfolding lt
lt_same a b h = ground arith

min-le-left : (a b : ℤ) → min_ℤ a b ≤ℤ a
unfolding min_ℤ
min-le-left a b = ground arith

pub min-le-right : (a b : ℤ) → min_ℤ a b ≤ℤ b
unfolding min_ℤ
min-le-right a b = ground arith

with_confirmed : Resolver → ℤ → Resolver
with_confirmed s n = record s { numsync_confirmed = n }

-- At most `numsync_confirmed` is changed, and no transition is yielded.
adjust_confirmed-eq :
    (s : Resolver) → (n : ℤ) × (adjust_confirmed s ≡ (ok tt, with_confirmed s n, []))
unfolding adjust_confirmed with_confirmed
adjust_confirmed-eq s =
    elim (Bool-cases (eqb_ℤ s.numsync_confirmed (pos 0) && not (null (inter s.sync s.active)))) [
      | inl e ↦ (min_ℤ (size (inter s.sync s.active)) (size s.voters -ℤ s.quorum), rw e refl)
      | inr e ↦ (s.numsync_confirmed, rw e refl)
    ]

with_confirmed-IsOptimal : (s : Resolver) (n : ℤ) → IsOptimal s → IsOptimal (with_confirmed s n)
unfolding with_confirmed
with_confirmed-IsOptimal s n o = record {
  settled = record {
    leader = o.settled.leader;
    distinct_voters = o.settled.distinct_voters;
    distinct_sync = o.settled.distinct_sync;
    voters_in_sync = o.settled.voters_in_sync;
    sync_in_voters = o.settled.sync_in_voters;
  };
  distinct_active = o.distinct_active;
  sync_in_active = o.sync_in_active;
  active_in_sync = o.active_in_sync;
  numsync = o.numsync;
  quorum = o.quorum;
}

module _ (s : Resolver) (o : IsOptimal s) where
  open o use {settled}

  voters-active : len s.voters ≡ len s.active
  voters-active =
      len-eq_of_subset s.voters s.active settled.distinct_voters o.distinct_active
        (λ w m. o.sync_in_active w (settled.voters_in_sync w m))
        (λ w m. settled.sync_in_voters w (o.active_in_sync w m))

  sync-voters : len s.sync ≡ len s.voters
  sync-voters =
      len-eq_of_subset s.sync s.voters settled.distinct_sync settled.distinct_voters
        settled.sync_in_voters settled.voters_in_sync

  counts : size s.voters ≡ s.quorum +ℤ s.numsync
  counts =
      ap pos voters-active
      ∙ sym (sub-add_cancel (size s.active) s.numsync)
      ∙ ap (λ q. q +ℤ s.numsync) (sym o.quorum)

  passes : check_invariants s.leader_wanted s.state ≡ ok tt
  passes = check_invariants_settled s settled (subst (λ n. size s.voters ≤ℤ n) counts (omega arith))

  same_leader : text_eq s.leader_wanted s.leader ≡ true
  same_leader =
      subst (λ l. text_eq s.leader_wanted l ≡ true) settled.leader (text_eq_refl s.leader_wanted)

  optimal-check_or_failover : check_or_failover s ≡ (ok false, s, [])
  unfolding check_or_failover check_leader check_self except_quorum_error ◌>>=◌
  optimal-check_or_failover = rw same_leader (rw passes)

  optimal-assert_leader : assert_leader s ≡ (ok tt, s, [])
  unfolding assert_leader ◌>>=◌
  optimal-assert_leader =
      rw (
        subst (λ l. text_eq l s.leader_wanted ≡ true) settled.leader (text_eq_refl s.leader_wanted))

  nodes : size (union s.voters s.sync) ≡ s.quorum +ℤ s.numsync
  nodes =
      ap pos (len-union_same s.voters s.sync settled.distinct_voters settled.sync_in_voters)
      ∙ counts

  margin : s.quorum +ℤ s.numsync -ℤ size (union s.voters s.sync) ≡ pos 0
  margin = ap (λ n. s.quorum +ℤ s.numsync -ℤ n) nodes ∙ sub_self (s.quorum +ℤ s.numsync)

  confirmed_margin :
      ltb_ℤ
        (pos 0)
        (s.quorum +ℤ min_ℤ s.numsync s.numsync_confirmed -ℤ size (union s.voters s.sync))
      ≡ false
  confirmed_margin = ltb_ℤ-eq_false (pos 0) _ (
      subst
        (λ n. s.quorum +ℤ min_ℤ s.numsync s.numsync_confirmed -ℤ size (union s.voters s.sync) ≤ℤ n)
        margin (omega (int_laws, min-le-left s.numsync s.numsync_confirmed)))

  optimal-reduce_margin : reduce_margin s ≡ (ok tt, s, [])
  unfolding reduce_margin ◌>>=◌
  optimal-reduce_margin = rw (confirmed_margin, margin) (ground arith)

  optimal-handle_non_steady_cases : handle_non_steady_cases s ≡ (ok tt, s, [])
  unfolding handle_non_steady_cases ◌>>=◌
  optimal-handle_non_steady_cases =
      rw
        (
          lt_same s.sync s.voters sync-voters,
          lt_same s.voters s.sync (sym sync-voters),
          eq_of_Subset s.voters s.sync settled.distinct_voters settled.distinct_sync
              settled.voters_in_sync settled.sync_in_voters,
          optimal-reduce_margin,
        )
        refl

  optimal-remove_gone_nodes : remove_gone_nodes s ≡ (ok tt, s, [])
  unfolding remove_gone_nodes ◌>>=◌
  optimal-remove_gone_nodes = rw (diff_subset s.sync s.active o.sync_in_active)

  optimal-add_new_nodes : add_new_nodes s ≡ (ok tt, s, [])
  unfolding add_new_nodes ◌>>=◌
  optimal-add_new_nodes = rw (diff_subset s.active s.sync o.active_in_sync)

  no_increase : min_ℤ s.sync_wanted (size s.sync) -ℤ s.numsync ≡ pos 0
  no_increase =
      ap (λ n. min_ℤ s.sync_wanted n -ℤ s.numsync) (ap pos (sync-voters ∙ voters-active))
      ∙ ap (λ n. n -ℤ s.numsync) (sym o.numsync)
      ∙ sub_self s.numsync

  optimal-handle_replication_factor_change : handle_replication_factor_change s ≡ (ok tt, s, [])
  unfolding handle_replication_factor_change ◌>>=◌
  optimal-handle_replication_factor_change = rw no_increase

  optimal-last_steps :
      (do
        handle_non_steady_cases
        remove_gone_nodes
        add_new_nodes
        handle_replication_factor_change)
        s
      ≡ (ok tt, s, [])
  unfolding ◌>>=◌
  optimal-last_steps = rw optimal-handle_non_steady_cases (
      rw optimal-remove_gone_nodes
        (rw optimal-add_new_nodes (rw optimal-handle_replication_factor_change)))

optimal-steps : (s : Resolver) → IsOptimal s → ((steps s).0 ≡ ok tt) × ((steps s).2 ≡ [])
unfolding steps ◌>>=◌
optimal-steps s o =
    let (n, e) = adjust_confirmed-eq s in
    rw (optimal-assert_leader s o, e)
      (let l = optimal-last_steps (with_confirmed s n) (with_confirmed-IsOptimal s n o) in
        (ap (λ r. r.0) l, ap (λ r. r.2) l))

optimal-generate_transitions :
    (s : Resolver)
    → IsOptimal s
    → ((generate_transitions s).0 ≡ ok tt) × ((generate_transitions s).2 ≡ [])
unfolding generate_transitions ◌>>=◌
optimal-generate_transitions s o = rw (optimal-check_or_failover s o) (optimal-steps s o)

list_nothing :
    (r : Result (Unit {0})) (out : List Transition)
    → r ≡ ok tt
    → out ≡ []
    → elim r [ ok _ ↦ ok (merge out) | err e ↦ err e ] ≡ ok []
unfolding merge
list_nothing r out done none_yielded = rw (done, none_yielded) refl

-- Where the leader is the wanted one, the voters, the synchronous and the active nodes are the same,
-- the replication factor is the wanted one, or the number of the active nodes if that is smaller, and
-- the quorum is the rest of them, however many nodes are confirmed: the resolver yields no transition
-- and raises nothing.
pub transitions_optimal : (s : Resolver) → IsOptimal s → transitions s ≡ ok []
unfolding transitions
transitions_optimal s o =
    let (done, none_yielded) = optimal-generate_transitions s o in
    list_nothing (generate_transitions s).0 (generate_transitions s).2 done none_yielded
