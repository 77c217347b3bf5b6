-- ===== src/Collections/Examples.antt =====
-- A small dict, and the theorems of CaseInsensitiveDict at it.
use patroni.Base.{◌≡◌, true, false, none, some, [], ◌∷◌, codes, text_eq, lower, ℕ}
use patroni.Collections.CaseInsensitiveSet.{same}
use patroni.Collections.CaseInsensitiveDict.{
  CaseInsensitiveDict, set_item, get_item, has_item, del_item, from_items, copy,
}
use patroni.Collections.CaseInsensitiveDict.Copy.{copy-from_items}
use patroni.Collections.CaseInsensitiveDict.Laws.{get_item-set_item, get_item-del_item}

abbrev two : CaseInsensitiveDict ℕ
two = (codes "Work_mem", 4) ∷ (codes "port", 5432) ∷ []

get_item-set_item_example : get_item (set_item two (codes "PORT") 5433) (codes "port") ≡ some 5433
unfolding same text_eq lower
get_item-set_item_example = get_item-set_item two (codes "PORT") (codes "port") 5433

get_item-del_item_example :
    ((elim (del_item two (codes "PORT")) [ none ↦ true | some e ↦ false ]) ≡ false)
    × ((elim (del_item two (codes "PORT")) [
      | none ↦ get_item two (codes "port")
      | some e ↦ get_item e (codes "port")
    ])
        ≡ none)
unfolding has_item same text_eq lower
get_item-del_item_example = get_item-del_item two (codes "PORT") (codes "port")

copy-from_items_example :
    copy (from_items ((codes "PORT", 1) ∷ two)) ≡ from_items ((codes "PORT", 1) ∷ two)
copy-from_items_example = copy-from_items ((codes "PORT", 1) ∷ two)
