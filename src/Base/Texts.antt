-- ===== src/Base/Texts.antt =====
-- Python's `str` as the list of its code points: equality, order, `lower`, `sorted`, `split`.
pub mod Split
use Prim.Native.Nat.{ℕ, zero, suc, ◌+◌}
use Prim.Native.Char.{code}
use Prim.Native.String
use Prim.Native.String.{String}
use mathlib.Core.Path.{◌≡◌, refl, ap, ap₂}
use mathlib.Core.Logic.{◌↔◌}
use mathlib.Core.Bool.{Bool, true, false, ◌&&◌, ◌||◌}
use mathlib.Core.List.{List, [], ◌∷◌, ◌++◌, map}
use native.Mathlib.Omega.{arith}
use patroni.Base.Tests.{leb, ltb, ◌==◌, ==_iff, if◌then◌else◌}

abbrev pub Text : Type 0
Text = List ℕ

-- A literal.
abbrev pub codes : String → Text
codes String.[] = []
codes (String.◌∷◌ c s) = code c ∷ codes s

unfoldable pub text_eq : Text → Text → Bool
text_eq [] [] = true
text_eq (x ∷ xs) (y ∷ ys) = x == y && text_eq xs ys
text_eq _ _ = false

-- `a < b` on strings: by code points, lexicographically.
unfoldable pub text_lt : Text → Text → Bool
text_lt [] (y ∷ ys) = true
text_lt (x ∷ xs) (y ∷ ys) = ltb x y || (x == y && text_lt xs ys)
text_lt _ _ = false

lower_code : ℕ → ℕ
lower_code c = if leb b'A' c && leb c b'Z' then c + 32 else c

-- `str.lower` on ASCII.
unfoldable pub lower : Text → Text
unfolding lower_code
lower = map lower_code

unfoldable pub insert_sorted : Text → List Text → List Text
insert_sorted x [] = x ∷ []
insert_sorted x (y ∷ ys) =
    let rest = insert_sorted x ys in if text_lt y x then y ∷ rest else x ∷ y ∷ ys

-- `sorted`
unfoldable pub sorted : List Text → List Text
unfolding insert_sorted text_lt
sorted [] = []
sorted (x ∷ xs) = insert_sorted x (sorted xs)

-- `s.startswith(p)`
unfoldable pub starts_with : Text → Text → Bool
starts_with [] s = true
starts_with (x ∷ p) [] = false
starts_with (x ∷ p) (y ∷ s) = x == y && starts_with p s

-- `str.strip` on ASCII: tab to carriage return, the four separators, and space.
unfoldable pub is_space : ℕ → Bool
is_space c = (leb 9 c && leb c 13) || (leb 28 c && leb c 32)

unfoldable pub lstrip : Text → Text
unfolding is_space
lstrip [] = []
lstrip (c ∷ s) = let rest = lstrip s in if is_space c then rest else c ∷ s

-- One character in front of what is left after `rstrip`.
unfoldable pub keep_before : ℕ → Text → Text
unfolding is_space
keep_before c [] = if is_space c then [] else c ∷ []
keep_before c (d ∷ s) = c ∷ d ∷ s

unfoldable pub rstrip : Text → Text
unfolding keep_before
rstrip [] = []
rstrip (c ∷ s) = keep_before c (rstrip s)

unfoldable pub strip : Text → Text
unfolding lstrip rstrip
strip s = rstrip (lstrip s)

unfoldable pub before_first : ℕ → List Text → List Text
before_first x [] = (x ∷ []) ∷ []
before_first x (w ∷ ws) = (x ∷ w) ∷ ws

-- `s.split(c)`, of one character.
unfoldable pub split_on : ℕ → Text → List Text
unfolding before_first
split_on c [] = [] ∷ []
split_on c (x ∷ s) = if x == c then [] ∷ split_on c s else before_first x (split_on c s)

-- `c.join(ws)`
unfoldable pub join_on : ℕ → List Text → Text
join_on c [] = []
join_on c (w ∷ []) = w
join_on c (w ∷ v ∷ ws) = w ++ c ∷ join_on c (v ∷ ws)

-- `t in ts`
unfoldable pub text_mem : Text → List Text → Bool
text_mem t [] = false
text_mem t (u ∷ ts) = if text_eq t u then true else text_mem t ts

pub text_eq_refl : (a : Text) → text_eq a a ≡ true
unfolding text_eq
text_eq_refl [] = refl
text_eq_refl (x ∷ xs) = ground (arith, text_eq_refl xs)

pub eq_of_text_eq : (a b : Text) → text_eq a b ≡ true → a ≡ b
unfolding text_eq
eq_of_text_eq [] [] h = refl
eq_of_text_eq (x ∷ xs) (y ∷ ys) h = ground (arith, eq_of_text_eq xs ys)
eq_of_text_eq [] (y ∷ ys) h = cc
eq_of_text_eq (x ∷ xs) [] h = cc

pub text_eq_iff : (a b : Text) → (text_eq a b ≡ true) ↔ (a ≡ b)
text_eq_iff a b = (eq_of_text_eq a b, λ e. rw e (text_eq_refl b))
