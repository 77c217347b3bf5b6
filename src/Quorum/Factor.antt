-- ===== src/Quorum/Factor.antt =====
-- What `__handle_replication_factor_change` of patroni/quorum.py does from a settled state.
use patroni.Base.{
  subst, ◌⊎◌, inl, inr, ◌≡◌, refl, sym, ap, ◌∙◌, Bool, true, false, List, none, ℤ, pos, ◌+ℤ◌, ◌-ℤ◌,
  ◌≤ℤ◌, ◌<ℤ◌, leb_ℤ, ltb_ℤ, eqb_ℤ, min_ℤ, max_ℤ, int_laws, null, if◌then◌else◌, arith, eq_of_parts,
  ltb_ℤ-eq_true, ltb_ℤ-eq_false,
}
use patroni.Collections.CaseInsensitiveSet.{len}
use patroni.Collections.CaseInsensitiveSet.Size.{len-eq_of_subset}
use patroni.Quorum.State.{Result, ok, Transition, Resolver, check_invariants}
use patroni.Quorum.Run.{◌>>=◌}
use patroni.Quorum.Resolver.Updates.{adjust, publish_quorum, quorum_update, sync_update}
use patroni.Quorum.Resolver.Phases.{size, handle_replication_factor_change}
use patroni.Quorum.Steady.{
  sub-add_cancel, sub_self, min-le-right, IsSettled, check_invariants_settled,
}

abbrev pub with_quorum : Resolver → ℤ → Resolver
with_quorum s q = record s { state = record (s.state) { quorum = q } }

abbrev pub with_numsync : Resolver → ℤ → Resolver
with_numsync s n = record s { state = record (s.state) { numsync = n } }

pub leb_ℤ-eq_false : (a b : ℤ) → b <ℤ a → leb_ℤ a b ≡ false
leb_ℤ-eq_false a b h = ground arith

max-nonneg : (a : ℤ) → pos 0 ≤ℤ max_ℤ a (pos 0)
unfolding max_ℤ
max-nonneg a = ground arith

adjusted : Resolver → ℤ → Bool → ℤ
adjusted s q adjust_quorum =
    if adjust_quorum then q +ℤ max_ℤ (s.numsync -ℤ s.numsync_confirmed) (pos 0) else q

adjusted-le : (s : Resolver) (q : ℤ) (b : Bool) → q ≤ℤ adjusted s q b
unfolding adjusted
adjusted-le s q true = omega (int_laws, max-nonneg (s.numsync -ℤ s.numsync_confirmed))
adjusted-le s q false = omega arith

adjust-eq :
    (s : Resolver) (q : ℤ) (b : Bool)
    → null s.voters ≡ false
    → adjust s q s.voters none b ≡ (s.leader, adjusted s q b, s.voters)
unfolding adjust adjusted
adjust-eq s q true h = ground arith
adjust-eq s q false h = ground arith

eqb_ℤ→eq : (a b : ℤ) → eqb_ℤ a b ≡ true → a ≡ b
eqb_ℤ→eq a b h = eq_of_parts a b (ground arith)

publish_quorum-eq :
    (s : Resolver) (q : ℤ)
    → check_invariants s.leader_wanted (with_quorum s q).state ≡ ok tt
    → ((publish_quorum (s.leader, q, s.voters) s).0 ≡ ok tt)
      × ((publish_quorum (s.leader, q, s.voters) s).1 ≡ with_quorum s q)
unfolding publish_quorum
publish_quorum-eq s q h = ground (arith, eqb_ℤ→eq q s.quorum)

pub with_quorum-IsSettled : (s : Resolver) (q : ℤ) → IsSettled s → IsSettled (with_quorum s q)
with_quorum-IsSettled s q i = record {
  leader = i.leader;
  distinct_voters = i.distinct_voters;
  distinct_sync = i.distinct_sync;
  voters_in_sync = i.voters_in_sync;
  sync_in_voters = i.sync_in_voters;
}

pub with_numsync-IsSettled : (s : Resolver) (n : ℤ) → IsSettled s → IsSettled (with_numsync s n)
with_numsync-IsSettled s n i = record {
  leader = i.leader;
  distinct_voters = i.distinct_voters;
  distinct_sync = i.distinct_sync;
  voters_in_sync = i.voters_in_sync;
  sync_in_voters = i.sync_in_voters;
}

-- A request for a number of voters that is in range and enough is granted.
quorum_update-eq :
    (s : Resolver) (q : ℤ) (b : Bool)
    → IsSettled s
    → null s.voters ≡ false
    → pos 0 ≤ℤ q
    → q <ℤ size s.voters
    → size s.voters ≤ℤ q +ℤ s.numsync
    → ((quorum_update q s.voters none b s).0 ≡ ok tt)
      × ((quorum_update q s.voters none b s).1 ≡ with_quorum s (adjusted s q b))
unfolding quorum_update
quorum_update-eq s q b i v low high enough = rw (ltb_ℤ-eq_false q (pos 0) low) (
    rw (leb_ℤ-eq_false (size s.voters) q high)
      (rw (adjust-eq s q b v) (ground (arith, publish_quorum-eq s (adjusted s q b) checked))))
  where
    checked : check_invariants s.leader_wanted (with_quorum s (adjusted s q b)).state ≡ ok tt
    checked =
        check_invariants_settled (with_quorum s (adjusted s q b))
          (with_quorum-IsSettled s (adjusted s q b) i) (omega (int_laws, enough, adjusted-le s q b))

sync_update-eq :
    (s : Resolver) (n : ℤ)
    → IsSettled s
    → pos 0 ≤ℤ n
    → n ≤ℤ size s.sync
    → size s.voters ≤ℤ s.quorum +ℤ n
    → ((sync_update n s.sync s).0 ≡ ok tt) × ((sync_update n s.sync s).1 ≡ with_numsync s n)
unfolding sync_update
sync_update-eq s n i low high enough =
    rw (ltb_ℤ-eq_false n (pos 0) low)
      (rw (ltb_ℤ-eq_false (size s.sync) n high) (ground (arith, checked)))
  where
    checked : check_invariants s.leader_wanted (with_numsync s n).state ≡ ok tt
    checked = check_invariants_settled (with_numsync s n) (with_numsync-IsSettled s n i) enough

-- A settled state with voters whose counts match, and a wanted factor of one at least.
pub record IsBalanced (s : Resolver) : Type 0 where
  pub settled : IsSettled s
  pub some_voters : null s.voters ≡ false
  pub wanted : pos 1 ≤ℤ s.sync_wanted
  pub low : pos 0 ≤ℤ s.numsync
  pub high : s.numsync ≤ℤ size s.sync
  pub quorum : s.quorum ≡ size s.voters -ℤ s.numsync

abbrev pub factor : Resolver → ℤ
factor s = min_ℤ s.sync_wanted (size s.sync)

-- The replication factor that the phase ends with.
abbrev pub Reaches : Resolver → Result (Unit {0}) × Resolver × List Transition → Type 0
Reaches s r = (r.0 ≡ ok tt) × (r.1.numsync ≡ factor s) × (r.1.sync ≡ s.sync)

pub back : (a b : ℤ) → a +ℤ (b -ℤ a) ≡ b
back a b = omega int_laws

compare_ℤ : (a b : ℤ) → (a <ℤ b) ⊎ ((b <ℤ a) ⊎ (a ≡ b))
compare_ℤ a b = ground arith

module _ (s : Resolver) (b : IsBalanced s) where
  voters-sync : len s.voters ≡ len s.sync
  voters-sync =
      len-eq_of_subset s.voters s.sync b.settled.distinct_voters b.settled.distinct_sync
        b.settled.voters_in_sync b.settled.sync_in_voters

  counts : size s.voters ≡ s.quorum +ℤ s.numsync
  counts = sym (sub-add_cancel (size s.voters) s.numsync) ∙ ap (λ q. q +ℤ s.numsync) (sym b.quorum)

  increase : s.numsync <ℤ factor s → Reaches s (handle_replication_factor_change s)
  unfolding handle_replication_factor_change ◌>>=◌
  increase h =
      rw (ltb_ℤ-eq_true (pos 0) (factor s -ℤ s.numsync) (omega int_laws))
        (rw (back s.numsync (factor s)) (ground (arith, first, second)))
    where
      first :
          ((sync_update (factor s) s.sync s).0 ≡ ok tt)
          × ((sync_update (factor s) s.sync s).1 ≡ with_numsync s (factor s))
      first =
          sync_update-eq s (factor s) b.settled (omega (int_laws, b.low))
            (min-le-right s.sync_wanted (size s.sync))
            (subst (λ n. n ≤ℤ s.quorum +ℤ factor s) (sym counts) (omega int_laws))

      s' : Resolver
      s' = with_numsync s (factor s)

      q : ℤ
      q = size s.voters -ℤ factor s

      second :
          ((quorum_update q s.voters none true s').0 ≡ ok tt)
          × ((quorum_update q s.voters none true s').1 ≡ with_quorum s' (adjusted s' q true))
      second =
          quorum_update-eq s' q true (with_numsync-IsSettled s (factor s) b.settled) b.some_voters
            (omega (int_laws, min-le-right s.sync_wanted (size s.sync), voters-sync))
            (omega (int_laws, b.low)) (omega int_laws)

  some_sync : pos 1 ≤ℤ size s.sync
  some_sync = ground (arith, voters-sync, b.some_voters)

  factor-pos : pos 1 ≤ℤ factor s
  unfolding min_ℤ
  factor-pos = ground (arith, some_sync, b.wanted)

  decrease : factor s <ℤ s.numsync → Reaches s (handle_replication_factor_change s)
  unfolding handle_replication_factor_change ◌>>=◌
  decrease h = rw (ltb_ℤ-eq_false (pos 0) (factor s -ℤ s.numsync) (omega int_laws)) (
      rw (ltb_ℤ-eq_true (factor s -ℤ s.numsync) (pos 0) (omega int_laws)) (
        rw (ltb_ℤ-eq_true (s.quorum -ℤ (factor s -ℤ s.numsync)) (size s.voters) room)
          (rw less (ground (arith, first, second, back s.numsync (factor s))))))
    where
      less : size s.voters -ℤ s.numsync -ℤ (factor s -ℤ s.numsync) ≡ size s.voters -ℤ factor s
      less = omega int_laws

      room : s.quorum -ℤ (factor s -ℤ s.numsync) <ℤ size s.voters
      room =
          subst (λ q. q -ℤ (factor s -ℤ s.numsync) <ℤ size s.voters) (sym b.quorum)
            (omega (int_laws, factor-pos))

      q : ℤ
      q = size s.voters -ℤ factor s

      adj : Bool
      adj = ltb_ℤ s.numsync_confirmed s.sync_wanted

      s' : Resolver
      s' = with_quorum s (adjusted s q adj)

      first :
          ((quorum_update q s.voters none adj s).0 ≡ ok tt)
          × ((quorum_update q s.voters none adj s).1 ≡ s')
      first =
          quorum_update-eq s q adj b.settled b.some_voters
            (omega (int_laws, min-le-right s.sync_wanted (size s.sync), voters-sync))
            (omega (int_laws, factor-pos)) (omega int_laws)

      second :
          ((sync_update (factor s) s.sync s').0 ≡ ok tt)
          × ((sync_update (factor s) s.sync s').1 ≡ with_numsync s' (factor s))
      second =
          sync_update-eq s' (factor s) (with_quorum-IsSettled s (adjusted s q adj) b.settled)
            (omega (int_laws, factor-pos)) (min-le-right s.sync_wanted (size s.sync))
            (omega (int_laws, adjusted-le s q adj))

handle_replication_factor_change_same :
    (s : Resolver)
    → IsBalanced s
    → s.numsync ≡ factor s
    → Reaches s (handle_replication_factor_change s)
unfolding handle_replication_factor_change ◌>>=◌
handle_replication_factor_change_same s b h =
    rw (ap (λ n. factor s -ℤ n) h ∙ sub_self (factor s)) (refl, h, refl)

-- From a settled state with voters, where `quorum` is the number of voters less `numsync`, `numsync` is
-- from 0 to the number of synchronous nodes, and the wanted factor is at least 1: the phase ends without
-- an error at the replication factor that is wanted, or at the number of synchronous nodes if that is
-- smaller, with the same nodes.
pub handle_replication_factor_change-Reaches :
    (s : Resolver) → IsBalanced s → Reaches s (handle_replication_factor_change s)
handle_replication_factor_change-Reaches s b = elim (compare_ℤ s.numsync (factor s)) [
  | inl less ↦ increase s b less
  | inr (inl more) ↦ decrease s b more
  | inr (inr same) ↦ handle_replication_factor_change_same s b same
]
