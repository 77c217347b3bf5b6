-- ===== src/Collections/CaseInsensitiveSet/Size.antt =====
-- Sizes of sets: no key twice, and what that gives for `__len__`.
use patroni.Base.{
  suc, ◌+◌, ◌≤◌, ◌≡◌, refl, inl, inr, true, false, not, List, [], ◌∷◌, ◌++◌, Text, null, select,
  all, foldl, arith, Bool-cases,
}
use patroni.Collections.CaseInsensitiveSet.{CaseInsensitiveSet, same}
use patroni.Collections.CaseInsensitiveSet.{
  contains, len, add, discard, init, union, inter, diff, issubset, eq,
}
use patroni.Collections.CaseInsensitiveSet.Membership.{
  same_iff, contains_congr, contains-add, contains-union, contains-diff,
}

-- Every key stands once.
abbrev pub IsDistinct : CaseInsensitiveSet → Type 0
IsDistinct [] = Unit {0}
IsDistinct (u ∷ s) = (contains s u ≡ false) × IsDistinct s

abbrev pub Subset : CaseInsensitiveSet → CaseInsensitiveSet → Type 0
Subset a b = (w : Text) → contains a w ≡ true → contains b w ≡ true

pub add-IsDistinct : (s : CaseInsensitiveSet) (v : Text) → IsDistinct s → IsDistinct (add s v)
unfolding add contains
add-IsDistinct [] v d = (refl, tt)
add-IsDistinct (u ∷ s) v d = ground (
  arith,
  add-IsDistinct s v d.1,
  contains-add s v u,
  contains_congr s u v,
  same_iff u v,
  same_iff v u,
)

foldl-IsDistinct :
    (xs : List Text) (s : CaseInsensitiveSet) → IsDistinct s → IsDistinct (foldl add s xs)
foldl-IsDistinct [] s d = d
foldl-IsDistinct (x ∷ xs) s d = foldl-IsDistinct xs (add s x) (add-IsDistinct s x d)

pub init-IsDistinct : (xs : List Text) → IsDistinct (init xs)
unfolding init
init-IsDistinct xs = foldl-IsDistinct xs [] tt

pub union-IsDistinct : (a b : CaseInsensitiveSet) → IsDistinct (union a b)
unfolding union
union-IsDistinct a b = init-IsDistinct (a ++ b)

pub inter-IsDistinct : (a b : CaseInsensitiveSet) → IsDistinct (inter a b)
unfolding inter
inter-IsDistinct a b = init-IsDistinct (select (contains a) b)

pub diff-IsDistinct : (a b : CaseInsensitiveSet) → IsDistinct (diff a b)
unfolding diff
diff-IsDistinct a b = init-IsDistinct (select (λ v. not (contains b v)) a)

same_refl : (u : Text) → same u u ≡ true
same_refl u = (same_iff u u).1 refl

contains_head : (u : Text) (s : CaseInsensitiveSet) → contains (u ∷ s) u ≡ true
unfolding contains
contains_head u s = ground (arith, same_refl u)

-- Taking one key out of a set that has it.
pub contains-discard :
    (s : CaseInsensitiveSet) (v w : Text)
    → contains s w ≡ true
    → same v w ≡ false
    → contains (discard s v) w ≡ true
unfolding contains discard
contains-discard [] v w h n = h
contains-discard (u ∷ s) v w h n =
    ground (arith, contains-discard s v w, same_iff u w, same_iff u v, same_iff v w)

pub contains_of_discard :
    (s : CaseInsensitiveSet) (v w : Text) → contains (discard s v) w ≡ true → contains s w ≡ true
unfolding contains discard
contains_of_discard [] v w h = h
contains_of_discard (u ∷ s) v w h = ground (arith, contains_of_discard s v w)

length-discard :
    (s : CaseInsensitiveSet) (v : Text) → contains s v ≡ true → len s ≡ suc (len (discard s v))
unfolding contains discard
length-discard [] v h = cc
length-discard (u ∷ s) v h = ground (arith, length-discard s v)

Subset-tail :
    (u : Text) (a b : CaseInsensitiveSet)
    → IsDistinct (u ∷ a)
    → Subset (u ∷ a) b
    → Subset a (discard b u)
unfolding contains
Subset-tail u a b d h w m =
    contains-discard b u w (h w (ground arith))
      (ground (arith, d.0, contains_congr a u w, Bool-cases (same u w)))

-- The pigeonhole principle.
pub len-le_of_subset : (a b : CaseInsensitiveSet) → IsDistinct a → Subset a b → len a ≤ len b
len-le_of_subset [] b d h = omega arith
len-le_of_subset (u ∷ a) b d h = omega (
  arith,
  length-discard b u (h u (contains_head u a)),
  len-le_of_subset a (discard b u) d.1 (Subset-tail u a b d h),
)

pub len-eq_of_subset :
    (a b : CaseInsensitiveSet)
    → IsDistinct a
    → IsDistinct b
    → Subset a b
    → Subset b a
    → len a ≡ len b
len-eq_of_subset a b da db h k = omega (arith, len-le_of_subset a b da h, len-le_of_subset b a db k)

all-contains : (a b : CaseInsensitiveSet) → Subset a b → all (contains b) a ≡ true
unfolding all contains
all-contains [] b h = refl
all-contains (u ∷ a) b h =
    ground (arith, h u (contains_head u a), all-contains a b (λ w m. h w (ground (arith, m))))

Subset_of_all : (a b : CaseInsensitiveSet) → all (contains b) a ≡ true → Subset a b
unfolding all contains
Subset_of_all [] b h w m = cc
Subset_of_all (u ∷ a) b h w m =
    ground (arith, Subset_of_all a b (ground arith) w, contains_congr b u w)

-- `issubset` decides inclusion of the keys.
pub issubset_of_Subset :
    (a b : CaseInsensitiveSet) → IsDistinct a → Subset a b → issubset a b ≡ true
unfolding issubset
issubset_of_Subset a b d h = ground (arith, len-le_of_subset a b d h, all-contains a b h)

pub Subset_of_issubset : (a b : CaseInsensitiveSet) → issubset a b ≡ true → Subset a b
unfolding issubset
Subset_of_issubset a b h = Subset_of_all a b (ground arith)

-- Two sets without a common key fit side by side into a set that has both.
pub len-add-le_of_disjoint :
    (a b c : CaseInsensitiveSet)
    → IsDistinct a
    → IsDistinct b
    → Subset a c
    → Subset b c
    → ((w : Text) → contains a w ≡ true → contains b w ≡ false)
    → len a + len b ≤ len c
unfolding contains
len-add-le_of_disjoint [] b c da db ha hb n = omega (arith, len-le_of_subset b c db hb)
len-add-le_of_disjoint (u ∷ a) b c da db ha hb n = omega (
  arith,
  length-discard c u (ha u (contains_head u a)),
  len-add-le_of_disjoint a b (discard c u) da.1 db (Subset-tail u a c da ha) b_rest
      (λ w m. n w (ground (arith, m))),
)
  where
    b_rest : Subset b (discard c u)
    b_rest w m =
        contains-discard c u w (hb w m)
          (ground (arith, n u (contains_head u a), contains_congr b u w))

pub contains-null : (s : CaseInsensitiveSet) (w : Text) → null s ≡ true → contains s w ≡ false
unfolding contains
contains-null [] w h = refl
contains-null (u ∷ s) w h = cc

-- A distinct set that is no larger than a part of it is the same set.
pub subset_of_len-le :
    (a b : CaseInsensitiveSet) → IsDistinct a → Subset a b → len b ≤ len a → Subset b a
unfolding contains
subset_of_len-le a b d h le w m = elim (Bool-cases (contains a w)) [
  | inl e ↦ e
  | inr e ↦ absurd (omega (arith, len-le_of_subset (w ∷ a) b (e, d) grown, le))
]
  where
    grown : Subset (w ∷ a) b
    grown v k = ground (arith, h v, contains_congr b w v, m)

pub eq_of_Subset :
    (a b : CaseInsensitiveSet)
    → IsDistinct a
    → IsDistinct b
    → Subset a b
    → Subset b a
    → eq a b ≡ true
unfolding eq
eq_of_Subset a b da db h k =
    ground (arith, len-eq_of_subset a b da db h k, issubset_of_Subset a b da h)

pub Subset_of_eq : (a b : CaseInsensitiveSet) → eq a b ≡ true → Subset a b
unfolding eq
Subset_of_eq a b e = Subset_of_issubset a b (ground arith)

pub Subset_of_eq_sym : (a b : CaseInsensitiveSet) → IsDistinct a → eq a b ≡ true → Subset b a
unfolding eq
Subset_of_eq_sym a b d e =
    subset_of_len-le a b d (Subset_of_issubset a b (ground arith)) (ground arith)

pub null_of_no_member :
    (s : CaseInsensitiveSet) → ((w : Text) → contains s w ≡ false) → null s ≡ true
null_of_no_member [] h = refl
null_of_no_member (u ∷ s) h = ground (arith, h u, contains_head u s)

-- Nothing of a part is left when the whole is taken away.
pub diff_subset : (a b : CaseInsensitiveSet) → Subset a b → null (diff a b) ≡ true
diff_subset a b h = null_of_no_member (diff a b) (λ w. ground (arith, contains-diff a b w, h w))

pub len-union_same :
    (a b : CaseInsensitiveSet) → IsDistinct a → Subset b a → len (union a b) ≡ len a
len-union_same a b d h =
    len-eq_of_subset (union a b) a (union-IsDistinct a b) d
      (λ w m. ground (arith, contains-union a b w, h w))
      (λ w m. ground (arith, contains-union a b w))
