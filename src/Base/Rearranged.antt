-- ===== src/Base/Rearranged.antt =====
-- Lists with the same entries in another order.
use mathlib.Core.List.{List, [], ◌∷◌, map}

pub data Rearranged {ℓ} {A : Type ℓ} : List A → List A → Type ℓ where
  nil : Rearranged [] []
  skip : (x : A) {xs ys : List A} → Rearranged xs ys → Rearranged (x ∷ xs) (x ∷ ys)
  swap : (x y : A) (xs : List A) → Rearranged (x ∷ y ∷ xs) (y ∷ x ∷ xs)
  trans : {xs ys zs : List A} → Rearranged xs ys → Rearranged ys zs → Rearranged xs zs

pub Rearranged-refl {ℓ} : {A : Type ℓ} (xs : List A) → Rearranged xs xs
Rearranged-refl [] = nil
Rearranged-refl (x ∷ xs) = skip x (Rearranged-refl xs)

pub Rearranged-map {ℓ κ} :
    {A : Type ℓ} {B : Type κ} (f : A → B) {xs ys : List A}
    → Rearranged xs ys
    → Rearranged (map f xs) (map f ys)
Rearranged-map f nil = nil
Rearranged-map f (skip x r) = skip (f x) (Rearranged-map f r)
Rearranged-map f (swap x y xs) = swap (f x) (f y) (map f xs)
Rearranged-map f (trans r s) = trans (Rearranged-map f r) (Rearranged-map f s)
