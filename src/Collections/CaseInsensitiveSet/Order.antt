-- ===== src/Collections/CaseInsensitiveSet/Order.antt =====
-- Lists of names: the order does not matter, and a selection of distinct names is distinct.
use patroni.Base.{
  ◌≡◌, refl, sym, ◌∙◌, Bool, true, false, List, [], ◌∷◌, map, Text, select, arith, Bool-cases, inl,
  inr,
}
use patroni.Base.Rearranged.{Rearranged, nil, skip, swap, trans}
use patroni.Collections.CaseInsensitiveSet.{contains}
use patroni.Collections.CaseInsensitiveSet.Membership.{same_comm}
use patroni.Collections.CaseInsensitiveSet.Size.{IsDistinct}

pub contains-Rearranged :
    {xs ys : List Text} (w : Text) → Rearranged xs ys → contains xs w ≡ contains ys w
unfolding contains
contains-Rearranged w nil = refl
contains-Rearranged w (skip x r) = ground (arith, contains-Rearranged w r)
contains-Rearranged w (swap x y xs) = ground arith
contains-Rearranged w (trans r s) = contains-Rearranged w r ∙ contains-Rearranged w s

pub IsDistinct-Rearranged : {xs ys : List Text} → Rearranged xs ys → IsDistinct xs → IsDistinct ys
unfolding contains
IsDistinct-Rearranged nil d = d
IsDistinct-Rearranged (skip x r) d =
    (sym (contains-Rearranged x r) ∙ d.0, IsDistinct-Rearranged r d.1)
IsDistinct-Rearranged (swap x y xs) d = ground (arith, same_comm x y)
IsDistinct-Rearranged (trans r s) d = IsDistinct-Rearranged s (IsDistinct-Rearranged r d)

module _ {A : Type 0} (name : A → Text) (p : A → Bool) where
  pub contains-select :
      (xs : List A) (w : Text)
      → contains (map name (select p xs)) w ≡ true
      → contains (map name xs) w ≡ true
  unfolding contains select
  contains-select [] w h = h
  contains-select (x ∷ xs) w h = ground (arith, contains-select xs w)

  not_selected :
      (xs : List A) (w : Text)
      → contains (map name xs) w ≡ false
      → contains (map name (select p xs)) w ≡ false
  not_selected xs w h = ground (arith, contains-select xs w)

  pub IsDistinct-select :
      (xs : List A) → IsDistinct (map name xs) → IsDistinct (map name (select p xs))
  unfolding select
  IsDistinct-select [] d = tt
  IsDistinct-select (x ∷ xs) d = elim (Bool-cases (p x)) [
    | inl h ↦ rw h (not_selected xs (name x) d.0, IsDistinct-select xs d.1)
    | inr h ↦ rw h (IsDistinct-select xs d.1)
  ]
