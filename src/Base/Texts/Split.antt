-- ===== src/Base/Texts/Split.antt =====
-- Laws of `split`, `join`, `strip` and `lower`.
use Prim.Native.Nat.{ℕ}
use mathlib.Core.Path.{◌≡◌, refl, ap, ◌∙◌}
use mathlib.Core.Bool.{false}
use mathlib.Core.List.{List, [], ◌∷◌, ◌++◌, map}
use native.Mathlib.Omega.{arith}
use patroni.Base.Tests.{◌==◌, if◌then◌else◌, Bool-cases}
use mathlib.Core.Logic.{inl, inr}
use patroni.Base.Lists.{null}
use patroni.Base.Texts.{
  Text, text_lt, lower, lower_code, sorted, insert_sorted, is_space, lstrip, keep_before, rstrip,
  strip, before_first, split_on, join_on,
}

abbrev pub Every {ℓ} : (Text → Type ℓ) → List Text → Type ℓ
Every P [] = Unit
Every P (t ∷ ts) = P t × Every P ts

-- No `c` in the text.
abbrev pub Lacks : ℕ → Text → Type 0
Lacks c [] = Unit {0}
Lacks c (x ∷ s) = ((x == c) ≡ false) × Lacks c s

pub split_on_lacking : (c : ℕ) (w : Text) → Lacks c w → split_on c w ≡ w ∷ []
unfolding split_on
split_on_lacking c [] l = refl
split_on_lacking c (x ∷ w) l = rw (l.0, split_on_lacking c w l.1)

pub split_on-append : (c : ℕ) (w s : Text) → Lacks c w → split_on c (w ++ c ∷ s) ≡ w ∷ split_on c s
unfolding split_on
split_on-append c [] s l = ground arith
split_on-append c (x ∷ w) s l = rw (l.0, split_on-append c w s l.1)

-- Splitting undoes joining.
pub split_on-join_on :
    (c : ℕ) (w : Text) (ws : List Text)
    → Every (Lacks c) (w ∷ ws)
    → split_on c (join_on c (w ∷ ws)) ≡ w ∷ ws
unfolding join_on
split_on-join_on c w [] l = split_on_lacking c w l.0
split_on-join_on c w (v ∷ ws) l =
    split_on-append c w (join_on c (v ∷ ws)) l.0 ∙ ap (◌∷◌ w) (split_on-join_on c v ws l.1)

insert_sorted-Every {ℓ} :
    (P : Text → Type ℓ) (t : Text) (ts : List Text)
    → P t
    → Every P ts
    → Every P (insert_sorted t ts)
unfolding insert_sorted
insert_sorted-Every P t [] p e = (p, tt)
insert_sorted-Every P t (u ∷ ts) p e = elim (Bool-cases (text_lt u t)) [
  | inl h ↦ rw h (e.0, insert_sorted-Every P t ts p e.1)
  | inr h ↦ rw h (p, e)
]

pub sorted-Every {ℓ} : (P : Text → Type ℓ) (ts : List Text) → Every P ts → Every P (sorted ts)
unfolding sorted
sorted-Every P [] e = tt
sorted-Every P (t ∷ ts) e = insert_sorted-Every P t (sorted ts) e.0 (sorted-Every P ts e.1)

-- `lower` keeps spaces, and what is no letter, where they are.
lower_code-space : (x : ℕ) → is_space (lower_code x) ≡ is_space x
unfolding is_space lower_code
lower_code-space x = ground arith

lstrip-lower : (s : Text) → lstrip (lower s) ≡ lower (lstrip s)
unfolding lstrip lower
lstrip-lower [] = refl
lstrip-lower (x ∷ s) = ground (arith, lstrip-lower s, lower_code-space x)

keep_before-lower :
    (x : ℕ) (s : Text) → keep_before (lower_code x) (lower s) ≡ lower (keep_before x s)
unfolding keep_before lower
keep_before-lower x [] = ground (arith, lower_code-space x)
keep_before-lower x (y ∷ s) = refl

rstrip-lower : (s : Text) → rstrip (lower s) ≡ lower (rstrip s)
unfolding rstrip lower
rstrip-lower [] = refl
rstrip-lower (x ∷ s) =
    ap (keep_before (lower_code x)) (rstrip-lower s) ∙ keep_before-lower x (rstrip s)

pub strip-lower : (s : Text) → strip (lower s) ≡ lower (strip s)
unfolding strip
strip-lower s = ap rstrip (lstrip-lower s) ∙ rstrip-lower (lstrip s)

before_first-lower :
    (x : ℕ) (ws : List Text)
    → before_first (lower_code x) (map lower ws) ≡ map lower (before_first x ws)
unfolding before_first lower
before_first-lower x [] = refl
before_first-lower x (w ∷ ws) = refl

lower_code-comma : (x : ℕ) → (lower_code x == b',') ≡ (x == b',')
unfolding lower_code
lower_code-comma x = ground arith

pub split_on-lower : (s : Text) → split_on b',' (lower s) ≡ map lower (split_on b',' s)
unfolding split_on lower
split_on-lower [] = refl
split_on-lower (x ∷ s) =
    ground (arith, lower_code-comma x, split_on-lower s, before_first-lower x (split_on b',' s))

pub null-lower : (s : Text) → null (lower s) ≡ null s
unfolding lower
null-lower [] = refl
null-lower (x ∷ s) = refl

pub lower-append : (a b : Text) → lower (a ++ b) ≡ lower a ++ lower b
unfolding lower
lower-append [] b = refl
lower-append (x ∷ a) b = ap (◌∷◌ (lower_code x)) (lower-append a b)

before_first-append :
    (x : ℕ) (ws vs : List Text)
    → before_first x (ws ++ vs) ≡ (if null ws then before_first x vs else before_first x ws ++ vs)
unfolding before_first
before_first-append x [] vs = refl
before_first-append x (w ∷ ws) vs = refl

split_on-ne_nil : (c : ℕ) (s : Text) → null (split_on c s) ≡ false
unfolding split_on before_first
split_on-ne_nil c [] = refl
split_on-ne_nil c (x ∷ s) = ground (arith, split_on-ne_nil c s)

-- A separator splits a text in two.
pub split_on_two : (c : ℕ) (a b : Text) → split_on c (a ++ c ∷ b) ≡ split_on c a ++ split_on c b
unfolding split_on
split_on_two c [] b = ground arith
split_on_two c (x ∷ a) b = ground (
  arith,
  split_on_two c a b,
  split_on-ne_nil c a,
  before_first-append x (split_on c a) (split_on c b),
)
