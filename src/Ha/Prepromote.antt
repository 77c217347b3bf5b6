-- ===== src/Ha/Prepromote.antt =====
-- `_process_quorum_prepromote` of patroni/ha.py: `synchronous_standby_names` before a promotion.
use patroni.Base.{
  subst, ℕ, suc, ◌≡◌, sym, ap, inl, inr, true, false, ◌∷◌, Text, ℤ, pos, ◌+ℤ◌, ◌-ℤ◌, ◌≤ℤ◌, leb_ℤ,
  max_ℤ, arith, int_laws, if◌then◌else◌, Bool-cases,
}
use patroni.Collections.CaseInsensitiveSet.{
  CaseInsensitiveSet, same, init, union, contains, discard, len, issubset,
}
use patroni.Collections.CaseInsensitiveSet.Membership.{
  contains_congr, contains-init, contains-union,
}
use patroni.Collections.CaseInsensitiveSet.Size.{
  Subset, contains-discard, contains_of_discard, len-le_of_subset, init-IsDistinct,
  union-IsDistinct, issubset_of_Subset,
}
use patroni.Dcs.SyncState
use patroni.Quorum.State.{ok, Published, with_name, check_invariants}
use patroni.Ha.State.{Ha, quorum_commit_mode_is_active}
use patroni.Quorum.Resolver.Phases.{size}
use patroni.Ha.Race.{voting_set}
use patroni.Ha.Race.Commits.{IsSyncKey, voting_set-contains, promotable-contains, voters-contains}

-- The names and their number that are set. `-1` because the set includes the former leader; a node
-- outside it is promoted by a manual failover, or because it achieved the quorum.
unfoldable pub process_quorum_prepromote : Ha → CaseInsensitiveSet × ℤ
process_quorum_prepromote ha =
    let quorum = if quorum_commit_mode_is_active ha then ha.cluster.sync.quorum else pos 0 in
    let sync = init (SyncState.members ha.cluster.sync) in
    let numsync = size sync -ℤ quorum -ℤ pos 1 in
    if contains sync ha.name
    then (discard sync ha.name, max_ℤ numsync ha.min_synchronous_nodes)
    else (sync, max_ℤ (numsync +ℤ pos 1) ha.min_synchronous_nodes)

-- What is published once they are set.
abbrev pub prepared : Ha → Published → Published
prepared ha p = record p {
  numsync = (process_quorum_prepromote ha).1;
  sync = (process_quorum_prepromote ha).0;
}

leb_ℤ-eq_true : (a b : ℤ) → a ≤ℤ b → leb_ℤ a b ≡ true
leb_ℤ-eq_true a b h = ground arith

max-ge : (a b : ℤ) → a ≤ℤ max_ℤ a b
unfolding max_ℤ
max-ge a b = ground arith

reach_member : (m : ℕ) (r q n : ℤ) → q ≡ r → pos m ≤ℤ q +ℤ max_ℤ (pos m -ℤ r -ℤ pos 1) n +ℤ pos 1
reach_member m r q n e =
    subst (λ x. pos m ≤ℤ x +ℤ max_ℤ (pos m -ℤ r -ℤ pos 1) n +ℤ pos 1) (sym e)
      (omega (int_laws, max-ge (pos m -ℤ r -ℤ pos 1) n))

reach_outsider :
    (m : ℕ) (r q n : ℤ)
    → q ≡ r
    → pos (suc m) ≤ℤ q +ℤ max_ℤ (pos m -ℤ r -ℤ pos 1 +ℤ pos 1) n +ℤ pos 1
reach_outsider m r q n e =
    subst (λ x. pos (suc m) ≤ℤ x +ℤ max_ℤ (pos m -ℤ r -ℤ pos 1 +ℤ pos 1) n +ℤ pos 1) (sym e)
      (omega (int_laws, max-ge (pos m -ℤ r -ℤ pos 1 +ℤ pos 1) n))

abbrev nodes : Ha → CaseInsensitiveSet
nodes ha = init (SyncState.members ha.cluster.sync)

prepromote_member :
    (ha : Ha)
    → quorum_commit_mode_is_active ha ≡ true
    → contains (nodes ha) ha.name ≡ true
    → process_quorum_prepromote ha ≡ (
      discard (nodes ha) ha.name,
      max_ℤ (size (nodes ha) -ℤ ha.cluster.sync.quorum -ℤ pos 1) ha.min_synchronous_nodes,
    )
unfolding process_quorum_prepromote
prepromote_member ha active h = rw (active, h)

prepromote_outsider :
    (ha : Ha)
    → quorum_commit_mode_is_active ha ≡ true
    → contains (nodes ha) ha.name ≡ false
    → process_quorum_prepromote ha ≡ (
      nodes ha,
      max_ℤ (size (nodes ha) -ℤ ha.cluster.sync.quorum -ℤ pos 1 +ℤ pos 1) ha.min_synchronous_nodes,
    )
unfolding process_quorum_prepromote
prepromote_outsider ha active h = rw (active, h)

with_name-contains :
    (s : CaseInsensitiveSet) (name w : Text)
    → contains (with_name s name) w ≡ (if contains s w then true else same name w)
with_name-contains s name w = simp (contains-init, contains-union) (unfold contains in ground arith)

-- Names that differ from those of `/sync` at most by the new leader, enough of them, pass the check.
check_invariants_prepared :
    (wanted : Text) (p : Published) (all bound : CaseInsensitiveSet)
    → ((w : Text) → contains (with_name p.voters p.leader) w ≡ contains all w)
    → ((w : Text) → contains all w ≡ true → same wanted w ≡ false → contains p.sync w ≡ true)
    → Subset p.sync all
    → Subset (with_name all wanted) bound
    → pos (len bound) ≤ℤ p.quorum +ℤ p.numsync +ℤ pos 1
    → check_invariants wanted p ≡ ok tt
unfolding check_invariants
check_invariants_prepared wanted p all bound voters names inside fits enough =
    rw
      (
        leb_ℤ-eq_true (pos (len (union (with_name p.voters p.leader) (with_name p.sync wanted))))
            (p.quorum +ℤ p.numsync +ℤ pos 1) few,
        nested,
      )
      (ground arith)
  where
    nested : issubset (with_name p.voters p.leader) (with_name p.sync wanted) ≡ true
    nested =
        issubset_of_Subset (with_name p.voters p.leader) (with_name p.sync wanted)
          (init-IsDistinct _)
          (λ w m. ground (arith, voters w, names w, with_name-contains p.sync wanted w))

    both : Subset (union (with_name p.voters p.leader) (with_name p.sync wanted)) bound
    both w m = fits w (
        ground (
          arith,
          voters w,
          inside w,
          with_name-contains p.sync wanted w,
          with_name-contains all wanted w,
          contains-union (with_name p.voters p.leader) (with_name p.sync wanted) w,
        ))

    few :
        pos (len (union (with_name p.voters p.leader) (with_name p.sync wanted)))
        ≤ℤ p.quorum +ℤ p.numsync +ℤ pos 1
    few = omega (
      int_laws,
      enough,
      len-le_of_subset (union (with_name p.voters p.leader) (with_name p.sync wanted)) bound
          (union-IsDistinct (with_name p.voters p.leader) (with_name p.sync wanted)) both,
    )

module _ (ha : Ha) (p : Published) (active : quorum_commit_mode_is_active ha ≡ true)
    (k : IsSyncKey ha p) where
  nodes-eq : voting_set ha ≡ nodes ha
  unfolding voting_set
  nodes-eq = rw active

  nodes-promotable : (w : Text) → contains (with_name p.voters p.leader) w ≡ contains (nodes ha) w
  unfolding contains
  nodes-promotable w = ground (
    arith,
    promotable-contains p w,
    voters-contains ha p w k,
    voting_set-contains ha p w active k,
    ap (λ s. contains s w) nodes-eq,
  )

  member-checked :
      contains (nodes ha) ha.name ≡ true → check_invariants ha.name (prepared ha p) ≡ ok tt
  member-checked h = rw (prepromote_member ha active h) (
      check_invariants_prepared ha.name
        (record p {
          numsync =
              max_ℤ (size (nodes ha) -ℤ ha.cluster.sync.quorum -ℤ pos 1) ha.min_synchronous_nodes;
          sync = discard (nodes ha) ha.name;
        })
        (nodes ha) (nodes ha) nodes-promotable (λ w m n. contains-discard (nodes ha) ha.name w m n)
        (λ w m. contains_of_discard (nodes ha) ha.name w m)
        (λ w m.
          ground
            (arith, with_name-contains (nodes ha) ha.name w, contains_congr (nodes ha) ha.name w))
        (reach_member (len (nodes ha)) ha.cluster.sync.quorum p.quorum ha.min_synchronous_nodes
          k.quorum))

  outsider-checked :
      contains (nodes ha) ha.name ≡ false → check_invariants ha.name (prepared ha p) ≡ ok tt
  outsider-checked h = rw (prepromote_outsider ha active h) (
      check_invariants_prepared ha.name
        (record p {
          numsync =
              max_ℤ (size (nodes ha) -ℤ ha.cluster.sync.quorum -ℤ pos 1 +ℤ pos 1)
                ha.min_synchronous_nodes;
          sync = nodes ha;
        })
        (nodes ha) (ha.name ∷ nodes ha) nodes-promotable (λ w m n. m) (λ w m. m)
        (λ w m. unfold contains in ground (arith, with_name-contains (nodes ha) ha.name w))
        (reach_outsider (len (nodes ha)) ha.cluster.sync.quorum p.quorum ha.min_synchronous_nodes
          k.quorum))

-- The names and the number that the new leader sets before its promotion keep the invariant of
-- patroni/quorum.py with the `/sync` key that the former leader left, whether the new leader is one
-- of its members or not.
pub process_quorum_prepromote-checked :
    (ha : Ha) (p : Published)
    → quorum_commit_mode_is_active ha ≡ true
    → IsSyncKey ha p
    → check_invariants ha.name (prepared ha p) ≡ ok tt
process_quorum_prepromote-checked ha p active k = elim (Bool-cases (contains (nodes ha) ha.name)) [
  | inl h ↦ member-checked ha p active k h
  | inr h ↦ outsider-checked ha p active k h
]
