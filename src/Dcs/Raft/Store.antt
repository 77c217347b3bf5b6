-- ===== src/Dcs/Raft/Store.antt =====
-- What the replicated store of patroni/dcs/raft.py keeps of other writers: compare-and-set by index.
use patroni.Base.{
  ℕ, suc, ◌+◌, ◌≤◌, ◌<◌, ◌≡◌, refl, sym, ap, ◌∙◌, ◌⊎◌, inl, inr, Bool, true, false, not, Option,
  none, some, List, [], ◌∷◌, Text, text_eq, text_eq_iff, eq_of_text_eq, starts_with, select, length,
  arith, if◌then◌else◌, Bool-cases, Option-cases,
}
use patroni.Dcs.Raft.{
  Value, Data, lookup, put, remove, Requirements, check_requirements, values_match, Command, set,
  delete, expire, stored, apply_set, apply_delete, apply_expire, apply, run, renew,
}

pub lookup-put :
    (d : Data) (key k : Text) (v : Value)
    → lookup (put d key v) k ≡ (if text_eq key k then some v else lookup d k)
unfolding lookup put
lookup-put [] key k v = ground arith
lookup-put ((u, w) ∷ d) key k v =
    ground (arith, lookup-put d key k v, text_eq_iff u key, text_eq_iff u k, text_eq_iff key k)

module _ (p : Text → Bool) where
  lookup-select :
      (d : Data) (k : Text)
      → lookup (select (λ entry. not (p entry.0)) d) k ≡ (if p k then none else lookup d k)
  unfolding lookup select
  lookup-select [] k = ground arith
  lookup-select ((u, w) ∷ d) k = elim (Bool-cases (text_eq u k)) [
    | inl e ↦ rw (eq_of_text_eq u k e) (ground (arith, lookup-select d k, text_eq_iff k k))
    | inr e ↦ ground (arith, lookup-select d k)
  ]

pub lookup-remove :
    (d : Data) (key k : Text)
    → lookup (remove d key) k ≡ (if text_eq k key then none else lookup d k)
unfolding remove
lookup-remove d key k = lookup-select (λ u. text_eq u key) d k

-- A recursive delete takes away the keys with the prefix, and no other.
pub lookup-apply_delete :
    (d : Data) (key k : Text) (r : Requirements)
    → lookup (apply_delete d key true r).1 k ≡ (if starts_with key k then none else lookup d k)
unfolding apply_delete
lookup-apply_delete d key k r = lookup-select (λ u. starts_with key u) d k

-- A value that is found later was there before, or has a later index, up to a bound.
abbrev OldOrNew : ℕ → ℕ → Data → Data → Text → Type 0
OldOrNew low high d d' k =
    (v : Value)
    → lookup d' k ≡ some v
    → (lookup d k ≡ some v) ⊎ ((low < v.index) × (v.index ≤ high))

same_value : (v w : Value) → some v ≡ some w → v ≡ w
same_value v w h = cc

module _ (n : ℕ) (d : Data) (k : Text) where
  set-OldOrNew :
      (key : Text) (value : Value) (r : Requirements)
      → OldOrNew n (suc n) d (apply_set n d key value r).1 k
  unfolding apply_set
  set-OldOrNew key value r v h = elim (Bool-cases (check_requirements (lookup d key) r)) [
    | inr e ↦ inl (rw e at h)
    | inl e ↦
        let v' : Value = record (renew (lookup d key) value) { index = n + 1 } in
        let found : lookup (put d key v') k ≡ some v = rw e at h in
        elim (Bool-cases (text_eq key k)) [
          | inl s ↦
              let same : v' ≡ v = same_value v' v (rw s at (sym (lookup-put d key k v') ∙ found)) in
              inr (rw (sym (ap (λ u. u.index) same)) (omega arith, omega arith))
          | inr s ↦ inl (rw s at (sym (lookup-put d key k v') ∙ found))
        ]
  ]

  kept : (b : Bool) → (v : Value) → (if b then none else lookup d k) ≡ some v → lookup d k ≡ some v
  kept b v h = ground arith

  remove-OldOrNew : (key : Text) → OldOrNew n (suc n) d (remove d key) k
  remove-OldOrNew key v h = inl (kept (text_eq k key) v (sym (lookup-remove d key k) ∙ h))

  delete-OldOrNew :
      (key : Text) (recursive : Bool) (r : Requirements)
      → OldOrNew n (suc n) d (apply_delete d key recursive r).1 k
  unfolding apply_delete
  delete-OldOrNew key true r v h =
      inl (kept (starts_with key k) v (sym (lookup-apply_delete d key k r) ∙ h))
  delete-OldOrNew key false r v h = elim (Bool-cases (check_requirements (lookup d key) r)) [
    | inr e ↦ inl (rw e at h)
    | inl e ↦ elim (Option-cases (lookup d key)) [
      | inl m ↦ inl (rw (e, m) at h)
      | inr (u, m) ↦ remove-OldOrNew key v (rw (e, m) at h)
    ]
  ]

  expire-OldOrNew :
      (key : Text) (value : Value) → OldOrNew n (suc n) d (apply_expire d key value).1 k
  unfolding apply_expire
  expire-OldOrNew key value v h = elim (Option-cases (lookup d key)) [
    | inl m ↦ inl (rw m at h)
    | inr (u, m) ↦ elim (Bool-cases (values_match u value)) [
      | inl e ↦ remove-OldOrNew key v (rw (m, e) at h)
      | inr e ↦ inl (rw (m, e) at h)
    ]
  ]

  apply-OldOrNew : (c : Command) → OldOrNew n (suc n) d (apply n d c).1 k
  unfolding apply
  apply-OldOrNew (set key value r) = set-OldOrNew key value r
  apply-OldOrNew (delete key recursive r) = delete-OldOrNew key recursive r
  apply-OldOrNew (expire key value) = expire-OldOrNew key value

run-OldOrNew :
    (n : ℕ) (d : Data) (cs : List Command) (k : Text) → OldOrNew n (n + length cs) d (run n d cs) k
unfolding run
run-OldOrNew n d [] k v h = inl h
run-OldOrNew n d (c ∷ cs) k v h = elim (run-OldOrNew (suc n) (apply n d c).1 cs k v h) [
  | inl old ↦ elim (apply-OldOrNew n d k c v old) [
    | inl older ↦ inl older
    | inr (low, high) ↦ inr (low, omega arith)
  ]
  | inr (low, high) ↦ inr (omega arith, omega arith)
]

nothing_found : (k : Text) (v : Value) → lookup [] k ≡ some v → 1 ≤ 0
unfolding lookup
nothing_found k v h = cc

-- The data after a log.
abbrev pub after : List Command → Data
after log = run 0 [] log

index-le :
    (log : List Command) (k : Text) (v : Value)
    → lookup (after log) k ≡ some v
    → v.index ≤ length log
index-le log k v h = elim (run-OldOrNew 0 [] log k v h) [
  | inl none_found ↦ omega (arith, nothing_found k v none_found)
  | inr (low, high) ↦ omega arith
]

set_passed :
    (n : ℕ) (d : Data) (k : Text) (x u : Value) (r : Requirements)
    → (apply_set n d k x r).0 ≡ stored u
    → check_requirements (lookup d k) r ≡ true
unfolding apply_set
set_passed n d k x u r h = ground arith

check_index :
    (old : Option Value) (r : Requirements) (i : ℕ)
    → r.prev_index ≡ some i
    → check_requirements old r ≡ true
    → (w : Value) × (old ≡ some w) × (w.index ≡ i)
unfolding check_requirements
check_index none r i p h = ground arith
check_index (some w) r i p h = (w, refl, ground arith)

-- A writer that read a value and then sets the key under the condition that its index is the one
-- that was read, however many commands are applied in between, succeeds only if the key still has
-- that very value.
pub set_keeps_others :
    (log more : List Command) (k : Text) (v x u : Value) (r : Requirements)
    → lookup (after log) k ≡ some v
    → r.prev_index ≡ some v.index
    → (apply_set (length log + length more) (run (length log) (after log) more) k x r).0 ≡ stored u
    → lookup (run (length log) (after log) more) k ≡ some v
set_keeps_others log more k v x u r read p h =
    let d = run (length log) (after log) more in
    let (w, found, same) =
      check_index (lookup d k) r v.index p (set_passed (length log + length more) d k x u r h) in
    elim (run-OldOrNew (length log) (after log) more k w found) [
      | inl old ↦ found ∙ sym old ∙ read
      | inr (low, high) ↦ absurd (omega (arith, index-le log k v read))
    ]
