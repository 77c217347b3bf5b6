-- ===== src/Sync/Replicas/Cascade.antt =====
-- Whether `_should_cascade` of patroni/postgresql/sync.py ends.
use patroni.Base.{
  ℕ, zero, suc, ◌<◌, ◌≡◌, refl, Bool, true, false, Option, none, some, arith, inl, inr,
  Option-cases,
}
use patroni.Collections.CaseInsensitiveDict.{CaseInsensitiveDict, get_item}
use patroni.Dcs.SyncState.{truthy, or_empty}
use patroni.Sync.Replicas.{StandbyMember, Row, should_cascade}

-- The member that a member replicates from.
abbrev pub upstream_of : CaseInsensitiveDict StandbyMember → StandbyMember → Option StandbyMember
upstream_of members m = get_item members (or_empty m.replicatefrom)

abbrev pub has_answer : Option Bool → Bool
has_answer none = false
has_answer (some _) = true

-- Two members that replicate from each other: no depth of recursion is enough.
pub should_cascade_never_ends :
    (n : ℕ) (members : CaseInsensitiveDict StandbyMember) (replication : CaseInsensitiveDict Row)
    (a b : StandbyMember)
    → truthy a.replicatefrom ≡ true
    → truthy b.replicatefrom ≡ true
    → upstream_of members a ≡ some b
    → upstream_of members b ≡ some a
    → should_cascade n members replication a ≡ none
unfolding should_cascade
should_cascade_never_ends zero members replication a b ta tb ab ba = refl
should_cascade_never_ends (suc n) members replication a b ta tb ab ba =
    rw (should_cascade, ab)
      (rw (ta, tb) (should_cascade_never_ends n members replication b a tb ta ba ab))

-- If each member replicates from one of a lower rank, the rank is depth enough.
pub should_cascade_ends :
    (n : ℕ) (members : CaseInsensitiveDict StandbyMember) (replication : CaseInsensitiveDict Row)
    (rank : StandbyMember → ℕ) (m : StandbyMember)
    → ((a b : StandbyMember) → upstream_of members a ≡ some b → rank b < rank a)
    → rank m < n
    → has_answer (should_cascade n members replication m) ≡ true
unfolding should_cascade
should_cascade_ends zero members replication rank m lower h = absurd (omega arith)
should_cascade_ends (suc n) members replication rank m lower h =
    elim (Option-cases (upstream_of members m)) [
      | inl e ↦ rw (should_cascade, e) refl
      | inr (u, e) ↦
          rw (should_cascade, e)
            (ground (
              arith,
              should_cascade_ends n members replication rank u lower (omega (arith, lower m u e)),
            ))
    ]
