-- ===== src/Ha/Multisync/Others.antt =====
-- Which nodes a new leader syncs to: `_process_multisync_prepromote` of patroni/ha.py.
use patroni.Base.{
  ◌≡◌, refl, sym, ap, ◌∙◌, Bool, true, false, Option, none, some, [], ◌∷◌, Text, ℤ, pos, ◌<ℤ◌,
  ltb_ℤ, ltb, null, arith, if◌then◌else◌, Bool-cases, inl, inr,
}
use patroni.Collections.CaseInsensitiveSet.{CaseInsensitiveSet, len, discard, init, contains}
use patroni.Collections.CaseInsensitiveSet.Membership.{same_iff, contains_congr, contains-init}
use patroni.Collections.CaseInsensitiveSet.Size.{
  IsDistinct, Subset, init-IsDistinct, contains_of_discard,
}
use patroni.Dcs.SyncState
use patroni.Dcs.SyncState.{truthy, or_empty}
use patroni.Ha.State.{Ha}
use patroni.Ha.Multisync.{
  Preparation, set_names, write_failed, first_of, without_me, nodes_to_sync,
  process_multisync_prepromote, process_sync_replication_prepromote,
}

discard_gone : (s : CaseInsensitiveSet) (v : Text) → IsDistinct s → contains (discard s v) v ≡ false
unfolding contains discard
discard_gone [] v d = refl
discard_gone (u ∷ s) v d = ground (arith, discard_gone s v d.1, d.0, contains_congr s u v)

-- This node is not in the set, and the others are among the old members.
abbrev IsOthers : Ha → CaseInsensitiveSet → Type 0
IsOthers ha s = (contains s ha.name ≡ false) × Subset s (init (SyncState.members ha.cluster.sync))

without_me-IsOthers : (ha : Ha) → IsOthers ha (without_me ha)
unfolding without_me
without_me-IsOthers ha =
    elim (Bool-cases (contains (init (SyncState.members ha.cluster.sync)) ha.name)) [
      | inl e ↦ rw e (discard_gone _ ha.name (init-IsDistinct _), contains_of_discard _ ha.name)
      | inr e ↦ rw e (e, λ w m. m)
    ]

first_inside : (s : CaseInsensitiveSet) → ltb 1 (len s) ≡ true → contains s (first_of s) ≡ true
unfolding contains first_of
first_inside [] h = cc
first_inside (u ∷ s) h = ground (arith, same_iff u u)

one-IsOthers :
    (ha : Ha) (s : CaseInsensitiveSet) (n : Text)
    → IsOthers ha s
    → contains s n ≡ true
    → IsOthers ha (init (n ∷ []))
unfolding contains
one-IsOthers ha s n (mine, old) h = (
  contains-init (n ∷ []) ha.name ∙ ground (arith, mine, h, contains_congr s n ha.name),
  λ w m. old w (ground (arith, contains-init (n ∷ []) w, contains_congr s n w)),
)

chosen_inside :
    (s : CaseInsensitiveSet) (l : Text)
    → ltb 1 (len s) ≡ true
    → contains s (if contains s l then l else first_of s) ≡ true
chosen_inside s l h = elim (Bool-cases (contains s l)) [
  | inl e ↦ chosen_leader s l e
  | inr e ↦ rw e (first_inside s h)
]
  where
    chosen_leader :
        (s : CaseInsensitiveSet) (l : Text)
        → contains s l ≡ true
        → contains s (if contains s l then l else first_of s) ≡ true
    chosen_leader s l e = ap (λ b. contains s (if b then l else first_of s)) e ∙ e

nodes_to_sync-IsOthers : (supports : Bool) (ha : Ha) → IsOthers ha (nodes_to_sync supports ha)
unfolding nodes_to_sync
nodes_to_sync-IsOthers supports ha = one_or_all _ (λ h. ground arith)
  where
    one_or_all :
        (b : Bool)
        → (b ≡ true → ltb 1 (len (without_me ha)) ≡ true)
        → IsOthers ha (
            if b
            then init (
                (if contains (without_me ha) (or_empty ha.cluster.sync.leader)
                  then or_empty ha.cluster.sync.leader
                  else first_of (without_me ha))
                ∷ [])
            else without_me ha)
    one_or_all true h =
        one-IsOthers ha (without_me ha) _ (without_me-IsOthers ha)
          (chosen_inside (without_me ha) (or_empty ha.cluster.sync.leader) (h refl))
    one_or_all false h = without_me-IsOthers ha

-- The names and the number of what is set.
abbrev names_of : Preparation → CaseInsensitiveSet
names_of (set_names s n) = s
names_of _ = []

abbrev number_of : Preparation → Option ℤ
number_of (set_names s n) = n
number_of _ = none

same_preparation :
    (p : Preparation) (s : CaseInsensitiveSet) (n : Option ℤ)
    → p ≡ set_names s n
    → (names_of p ≡ s) × (number_of p ≡ n)
same_preparation p s n h = (ap names_of h, ap number_of h)

multisync-eq :
    (write : Text → CaseInsensitiveSet → Bool) (supports : Bool) (ha : Ha) (s : CaseInsensitiveSet)
    (n : Option ℤ)
    → pos 0 <ℤ ha.min_synchronous_nodes
    → process_multisync_prepromote write supports ha ≡ set_names s n
    → (nodes_to_sync supports ha ≡ s)
      × ((if null (nodes_to_sync supports ha) then some ha.min_synchronous_nodes else none) ≡ n)
unfolding process_multisync_prepromote
multisync-eq write supports ha s n strict h =
    let e : ltb_ℤ (pos 0) ha.min_synchronous_nodes ≡ true = ground (arith, strict) in
    let g = rw e at h in
    elim (Bool-cases (write ha.name (nodes_to_sync supports ha))) [
      | inl w ↦ same_preparation (set_names (nodes_to_sync supports ha) _) s n (rw w at g)
      | inr w ↦ absurd (no_failure s n (rw w at g))
    ]
  where
    no_failure : (s : CaseInsensitiveSet) (n : Option ℤ) → write_failed ≡ set_names s n → ⊥
    no_failure s n h = cc

-- In strict synchronous mode without quorum commit, what a new leader sets before its promotion names
-- old members of `/sync` other than itself, and without a name it sets the least number of
-- synchronous nodes.
pub process_sync_replication_prepromote_strict :
    (write : Text → CaseInsensitiveSet → Bool) (supports : Bool) (ha : Ha) (s : CaseInsensitiveSet)
    (n : Option ℤ)
    → ha.is_quorum_commit_mode ≡ false
    → ha.is_synchronous_mode ≡ true
    → pos 0 <ℤ ha.min_synchronous_nodes
    → process_sync_replication_prepromote write supports ha ≡ set_names s n
    → (contains s ha.name ≡ false)
      × Subset s (init (SyncState.members ha.cluster.sync))
      × (null s ≡ true → n ≡ some ha.min_synchronous_nodes)
unfolding process_sync_replication_prepromote
process_sync_replication_prepromote_strict write supports ha s n q m strict h =
    let (names, number) = multisync-eq write supports ha s n strict (ground (arith, q, m, h)) in
    let (mine, old) = nodes_to_sync-IsOthers supports ha in
    (
      ap (λ x. contains x ha.name) (sym names) ∙ mine,
      λ w c. old w (ap (λ x. contains x w) names ∙ c),
      λ e.
          sym number
          ∙ ap (λ b. if b then some ha.min_synchronous_nodes else none) (ap null names ∙ e),
    )
