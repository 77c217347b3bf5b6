-- ===== src/Collections/CaseInsensitiveDict/Copy.antt =====
-- The copy of a `CaseInsensitiveDict` of patroni/collections.py.
use patroni.Base.{
  ◌≡◌, refl, sym, ap, ◌∙◌, true, false, List, [], ◌∷◌, ◌++◌, Text, arith, if◌then◌else◌, Bool-cases,
  inl, inr,
}
use mathlib.Core.List.{append-nil}
use patroni.Collections.CaseInsensitiveSet.{same, contains}
use patroni.Collections.CaseInsensitiveSet.Membership.{same_comm, same_iff, contains_congr}
use patroni.Collections.CaseInsensitiveSet.Size.{IsDistinct}
use patroni.Collections.CaseInsensitiveDict.{
  CaseInsensitiveDict, set_item, update, from_items, keys, copy,
}

module _ {ℓ} {A : Type ℓ} where
  set_item-new :
      (d : CaseInsensitiveDict A) (key : Text) (v : A)
      → contains (keys d) key ≡ false
      → set_item d key v ≡ d ++ (key, v) ∷ []
  unfolding set_item contains
  set_item-new [] key v h = refl
  set_item-new ((k, w) ∷ d) key v h = ground (arith, set_item-new d key v)

  key_is_new :
      (d es : CaseInsensitiveDict A) (key : Text) (v : A)
      → IsDistinct (keys (d ++ (key, v) ∷ es))
      → contains (keys d) key ≡ false
  unfolding contains
  key_is_new [] es key v h = refl
  key_is_new ((k, w) ∷ d) es key v h =
      ground (arith, key_is_new d es key v h.1, h.0, contains-middle d es k key v)
    where
      contains-middle :
          (d es : CaseInsensitiveDict A) (k key : Text) (v : A)
          → contains (keys (d ++ (key, v) ∷ es)) k ≡ false
          → same k key ≡ false
      contains-middle [] es k key v c = ground (arith, same_comm k key)
      contains-middle ((u, w) ∷ d) es k key v c = contains-middle d es k key v (ground arith)

  append_one : (d es : CaseInsensitiveDict A) (e : Text × A) → (d ++ e ∷ []) ++ es ≡ d ++ e ∷ es
  append_one [] es e = refl
  append_one (x ∷ d) es e = ap (◌∷◌ x) (append_one d es e)

  update-append :
      (es d : CaseInsensitiveDict A) → IsDistinct (keys (d ++ es)) → update d es ≡ d ++ es
  unfolding update
  update-append [] d h = sym (append-nil d)
  update-append ((k, v) ∷ es) d h =
      rw (set_item-new d k v (key_is_new d es k v h)) (
        update-append es (d ++ (k, v) ∷ []) (rw (append_one d es (k, v)) h)
        ∙ append_one d es (k, v))

  contains-set_item :
      (d : CaseInsensitiveDict A) (key j : Text) (v : A)
      → contains (keys (set_item d key v)) j ≡ (if same key j then true else contains (keys d) j)
  unfolding set_item contains
  contains-set_item [] key j v = ground arith
  contains-set_item ((k, w) ∷ d) key j v =
      ground (arith, contains-set_item d key j v, same_iff k key, same_iff k j, same_iff key j)

  set_item-IsDistinct :
      (d : CaseInsensitiveDict A) (key : Text) (v : A)
      → IsDistinct (keys d)
      → IsDistinct (keys (set_item d key v))
  unfolding set_item contains
  set_item-IsDistinct [] key v h = (refl, tt)
  set_item-IsDistinct ((k, w) ∷ d) key v h = elim (Bool-cases (same k key)) [
    | inl e ↦ rw e (ground (arith, contains_other d k key e, h.0), h.1)
    | inr e ↦ rw e (
      ground (arith, contains-set_item d key k v, same_comm k key, h.0),
      set_item-IsDistinct d key v h.1,
    )
  ]
    where
      contains_other :
          (d : CaseInsensitiveDict A) (k key : Text)
          → same k key ≡ true
          → contains (keys d) key ≡ contains (keys d) k
      contains_other d k key e = sym (contains_congr (keys d) k key e)

  update-IsDistinct :
      (es d : CaseInsensitiveDict A) → IsDistinct (keys d) → IsDistinct (keys (update d es))
  unfolding update
  update-IsDistinct [] d h = h
  update-IsDistinct ((k, v) ∷ es) d h =
      update-IsDistinct es (set_item d k v) (set_item-IsDistinct d k v h)

  -- A dict that was built from any pairs is its own copy, with the same pairs in the same order.
  pub copy-from_items : (es : List (Text × A)) → copy (from_items es) ≡ from_items es
  unfolding copy from_items
  copy-from_items es = update-append (update [] es) [] (update-IsDistinct es [] tt)
