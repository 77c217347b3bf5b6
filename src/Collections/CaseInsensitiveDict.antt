-- ===== src/Collections/CaseInsensitiveDict.antt =====
-- `CaseInsensitiveDict` of patroni/collections.py. The entry of `_values` at `key.lower()` is the pair
-- of the key and the value, so a dict is given by these pairs, in insertion order.
pub mod Laws
pub mod Copy
use patroni.Base.{
  ℕ, Bool, true, false, not, Option, none, some, List, [], ◌∷◌, map, foldl, Text, length, select,
  if◌then◌else◌,
}
use patroni.Collections.CaseInsensitiveSet.{same}

abbrev pub CaseInsensitiveDict {ℓ} : Type ℓ → Type ℓ
CaseInsensitiveDict A = List (Text × A)

module _ {ℓ} {A : Type ℓ} where
  -- `__setitem__`: the position of the key stays.
  unfoldable pub set_item : CaseInsensitiveDict A → Text → A → CaseInsensitiveDict A
  set_item [] key value = (key, value) ∷ []
  set_item ((k, v) ∷ d) key value =
      let rest = (k, v) ∷ set_item d key value in if same k key then (key, value) ∷ d else rest

  -- `get`; `__getitem__` raises `KeyError` where it is `none`.
  unfoldable pub get_item : CaseInsensitiveDict A → Text → Option A
  get_item [] key = none
  get_item ((k, v) ∷ d) key = if same k key then some v else get_item d key

  -- `__contains__`
  unfoldable pub has_item : CaseInsensitiveDict A → Text → Bool
  has_item [] key = false
  has_item ((k, v) ∷ d) key = if same k key then true else has_item d key

  -- `__delitem__`; `none` is a `KeyError`.
  unfoldable pub del_item : CaseInsensitiveDict A → Text → Option (CaseInsensitiveDict A)
  del_item d key = if has_item d key then some (select (λ e. not (same e.0 key)) d) else none

  -- `update`, with the pairs of another dict.
  unfoldable pub update : CaseInsensitiveDict A → List (Text × A) → CaseInsensitiveDict A
  unfolding set_item
  update d [] = d
  update d ((k, v) ∷ es) = update (set_item d k v) es

  -- `__init__`
  unfoldable pub from_items : List (Text × A) → CaseInsensitiveDict A
  unfolding update
  from_items items = update [] items

  -- `__iter__` and `__len__`
  abbrev pub keys : CaseInsensitiveDict A → List Text
  keys = map (λ e. e.0)

  abbrev pub values : CaseInsensitiveDict A → List A
  values = map (λ e. e.1)

  -- `copy`
  unfoldable pub copy : CaseInsensitiveDict A → CaseInsensitiveDict A
  unfolding from_items
  copy d = from_items d
