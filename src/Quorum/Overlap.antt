-- ===== src/Quorum/Overlap.antt =====
-- What `check_invariants` is for: whoever can acknowledge a commit meets whoever can be promoted.
use patroni.Base.{inl, inr, ◌≡◌, false, Text, pos, ◌+ℤ◌, ◌≤ℤ◌, int_laws, null, arith, Bool-cases}
use patroni.Collections.CaseInsensitiveSet.{CaseInsensitiveSet, len, union, inter}
use patroni.Collections.CaseInsensitiveSet.Membership.{contains-union, contains-inter}
use patroni.Collections.CaseInsensitiveSet.Size.{
  IsDistinct, Subset, len-add-le_of_disjoint, contains-null,
}
use patroni.Quorum.State.{ok, Published, with_name, check_invariants}

-- The nodes of `/sync`, and those of `synchronous_standby_names`, with the leaders.
abbrev pub promotable : Published → CaseInsensitiveSet
promotable p = with_name p.voters p.leader

abbrev pub acknowledging : Text → Published → CaseInsensitiveSet
acknowledging wanted p = with_name p.sync wanted

check_invariants-size :
    (wanted : Text) (p : Published)
    → check_invariants wanted p ≡ ok tt
    → null p.voters ≡ false
    → pos (len (union (promotable p) (acknowledging wanted p))) ≤ℤ p.quorum +ℤ p.numsync +ℤ pos 1
unfolding check_invariants
check_invariants-size wanted p h v = ground arith

-- If the check passes and there are voters, every set of nodes that can acknowledge a commit (the
-- wanted leader and `sync`, `numsync` and one more of them) has a node in common with every set that
-- can promote (the leader and `voters`, `quorum` and one more of them).
pub check_invariants-overlap :
    (wanted : Text) (p : Published) (ack promote : CaseInsensitiveSet)
    → check_invariants wanted p ≡ ok tt
    → null p.voters ≡ false
    → IsDistinct ack
    → IsDistinct promote
    → Subset ack (acknowledging wanted p)
    → Subset promote (promotable p)
    → p.numsync +ℤ pos 1 ≤ℤ pos (len ack)
    → p.quorum +ℤ pos 1 ≤ℤ pos (len promote)
    → null (inter ack promote) ≡ false
check_invariants-overlap wanted p ack promote ok_ voters da dp ha hp na np =
    elim (Bool-cases (null (inter ack promote))) [
      | inl e ↦ absurd (
          omega (
            int_laws,
            check_invariants-size wanted p ok_ voters,
            len-add-le_of_disjoint ack promote (union (promotable p) (acknowledging wanted p)) da dp
                (λ w m. rw contains-union (ground (arith, ha w m)))
                (λ w m. rw contains-union (ground (arith, hp w m)))
                (λ w m.
                  ground
                    (arith, contains-null (inter ack promote) w e, contains-inter ack promote w)),
          ))
      | inr e ↦ e
    ]
