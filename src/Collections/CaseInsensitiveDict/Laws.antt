-- ===== src/Collections/CaseInsensitiveDict/Laws.antt =====
-- What is got after setting and deleting: `CaseInsensitiveDict` of patroni/collections.py.
use patroni.Base.{
  true, false, not, ◌≡◌, refl, not, ◌&&◌, none, some, [], ◌∷◌, Text, select, arith, if◌then◌else◌,
}
use patroni.Collections.CaseInsensitiveSet.{same, contains}
use patroni.Collections.CaseInsensitiveSet.Membership.{same_iff}
use patroni.Collections.CaseInsensitiveDict.{
  CaseInsensitiveDict, set_item, get_item, has_item, del_item, keys,
}

module _ {ℓ} {A : Type ℓ} where
  -- A key that was set is found with its value, up to case, and the other keys are as they were.
  pub get_item-set_item :
      (d : CaseInsensitiveDict A) (key j : Text) (v : A)
      → get_item (set_item d key v) j ≡ (if same key j then some v else get_item d j)
  unfolding get_item set_item
  get_item-set_item [] key j v = ground arith
  get_item-set_item ((k, w) ∷ d) key j v =
      ground (arith, get_item-set_item d key j v, same_iff k key, same_iff k j, same_iff key j)

  has_item-eq : (d : CaseInsensitiveDict A) (j : Text) → has_item d j ≡ contains (keys d) j
  unfolding has_item contains
  has_item-eq [] j = refl
  has_item-eq ((k, w) ∷ d) j = ground (arith, has_item-eq d j)

  get_item-select :
      (d : CaseInsensitiveDict A) (key j : Text)
      → get_item (select (λ e. not (same e.0 key)) d) j
        ≡ (if same key j then none else get_item d j)
  unfolding get_item select
  get_item-select [] key j = ground arith
  get_item-select ((k, w) ∷ d) key j =
      ground (arith, get_item-select d key j, same_iff k key, same_iff k j, same_iff key j)

  -- Deleting raises exactly if the key is not there; else it takes the key away, and no other.
  pub get_item-del_item :
      (d : CaseInsensitiveDict A) (key j : Text)
      → ((elim (del_item d key) [ none ↦ true | some e ↦ false ]) ≡ not (has_item d key))
        × ((elim (del_item d key) [ none ↦ get_item d j | some e ↦ get_item e j ])
            ≡ (if has_item d key && same key j then none else get_item d j))
  unfolding del_item
  get_item-del_item d key j = (ground arith, ground (arith, get_item-select d key j))
