-- ===== src/Quorum/Stuck.antt =====
-- A state from which `__handle_replication_factor_change` of patroni/quorum.py raises.
use patroni.Base.{
  ◌≡◌, refl, ◌≤◌, suc, false, ◌∷◌, pos, ◌+ℤ◌, ◌-ℤ◌, ◌≤ℤ◌, ◌<ℤ◌, leb_ℤ, int_laws, null, arith,
  ltb_ℤ-eq_true, ltb_ℤ-eq_false,
}
use patroni.Collections.CaseInsensitiveSet.{contains, len, union}
use patroni.Collections.CaseInsensitiveSet.Membership.{contains-init, contains-union}
use patroni.Collections.CaseInsensitiveSet.Size.{Subset, len-le_of_subset}
use patroni.Quorum.State.{err, no_overlap, Resolver, with_name, check_invariants}
use patroni.Quorum.Run.{◌>>=◌}
use patroni.Quorum.Resolver.Updates.{sync_update}
use patroni.Quorum.Resolver.Phases.{size, handle_replication_factor_change}
use patroni.Quorum.Steady.{IsSettled, min-le-right}
use patroni.Quorum.Factor.{factor, leb_ℤ-eq_false, with_numsync, with_numsync-IsSettled, back}

suc-len-le :
    (s : Resolver)
    → IsSettled s
    → contains s.voters s.leader ≡ false
    → suc (len s.voters)
      ≤ len (union (with_name s.voters s.leader) (with_name s.sync s.leader_wanted))
suc-len-le s i absent =
    len-le_of_subset (s.leader ∷ s.voters)
      (union (with_name s.voters s.leader) (with_name s.sync s.leader_wanted))
      (absent, i.distinct_voters) inside
  where
    inside :
        Subset
          (s.leader ∷ s.voters)
          (union (with_name s.voters s.leader) (with_name s.sync s.leader_wanted))
    inside w = simp (contains-union, contains-init) (unfold contains in ground arith)

check_invariants_short :
    (s : Resolver)
    → IsSettled s
    → null s.voters ≡ false
    → contains s.voters s.leader ≡ false
    → s.quorum +ℤ s.numsync <ℤ size s.voters
    → check_invariants s.leader_wanted s.state ≡ err no_overlap
unfolding check_invariants
check_invariants_short s i v absent short = rw (v, few) refl
  where
    few :
        leb_ℤ
          (pos (len (union (with_name s.voters s.leader) (with_name s.sync s.leader_wanted))))
          (s.quorum +ℤ s.numsync +ℤ pos 1)
        ≡ false
    few =
        leb_ℤ-eq_false
          (pos (len (union (with_name s.voters s.leader) (with_name s.sync s.leader_wanted))))
          (s.quorum +ℤ s.numsync +ℤ pos 1) (omega (int_laws, suc-len-le s i absent))

-- From a settled state with voters other than the leader, where `numsync` is above the wanted factor
-- by so much that `quorum` would reach the number of voters, while `quorum` and the wanted factor
-- fall short of that number, the phase raises a `QuorumError` and ends the whole iteration.
pub handle_replication_factor_change_raises :
    (s : Resolver)
    → IsSettled s
    → null s.voters ≡ false
    → contains s.voters s.leader ≡ false
    → pos 0 ≤ℤ factor s
    → factor s <ℤ s.numsync
    → size s.voters ≤ℤ s.quorum -ℤ (factor s -ℤ s.numsync)
    → s.quorum +ℤ factor s <ℤ size s.voters
    → (handle_replication_factor_change s).0 ≡ err no_overlap
unfolding handle_replication_factor_change sync_update ◌>>=◌
handle_replication_factor_change_raises s i v absent low less reached short =
    rw (ltb_ℤ-eq_false (pos 0) (factor s -ℤ s.numsync) (omega int_laws)) (
      rw (ltb_ℤ-eq_true (factor s -ℤ s.numsync) (pos 0) (omega int_laws)) (
        rw (ltb_ℤ-eq_false (s.quorum -ℤ (factor s -ℤ s.numsync)) (size s.voters) reached) (
          rw (back s.numsync (factor s)) (
            rw (ltb_ℤ-eq_false (factor s) (pos 0) low) (
              rw
                (ltb_ℤ-eq_false (size s.sync) (factor s) (min-le-right s.sync_wanted (size s.sync)))
                (rw refused refl))))))
  where
    refused : check_invariants s.leader_wanted (with_numsync s (factor s)).state ≡ err no_overlap
    refused =
        check_invariants_short (with_numsync s (factor s)) (with_numsync-IsSettled s (factor s) i) v
          absent short
