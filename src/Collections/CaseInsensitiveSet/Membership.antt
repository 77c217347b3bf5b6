-- ===== src/Collections/CaseInsensitiveSet/Membership.antt =====
-- What each set operation contains.
use patroni.Base.{
  ◌≡◌, refl, ◌∙◌, ap, ◌↔◌, Bool, true, false, not, List, [], ◌∷◌, ◌++◌, Text, text_eq_iff, lower,
  select, foldl, arith, if◌then◌else◌,
}
use patroni.Collections.CaseInsensitiveSet.{CaseInsensitiveSet, same}
use patroni.Collections.CaseInsensitiveSet.{contains, add, init, union, inter, diff}

pub same_iff : (u v : Text) → (same u v ≡ true) ↔ (lower u ≡ lower v)
unfolding same
same_iff u v = text_eq_iff (lower u) (lower v)

pub same_comm : (u v : Text) → same u v ≡ same v u
same_comm u v = ground (arith, same_iff u v, same_iff v u)

pub contains_congr :
    (s : CaseInsensitiveSet) (u v : Text) → same u v ≡ true → contains s u ≡ contains s v
unfolding contains
contains_congr [] u v h = refl
contains_congr (x ∷ s) u v h =
    ground (arith, contains_congr s u v h, same_iff u v, same_iff x u, same_iff x v)

pub contains-add :
    (s : CaseInsensitiveSet) (v w : Text)
    → contains (add s v) w ≡ (if same v w then true else contains s w)
unfolding contains add
contains-add [] v w = refl
contains-add (x ∷ s) v w =
    ground (arith, contains-add s v w, same_iff x v, same_iff x w, same_iff v w)

contains-foldl :
    (xs : List Text) (s : CaseInsensitiveSet) (w : Text)
    → contains (foldl add s xs) w ≡ (if contains s w then true else contains xs w)
unfolding contains
contains-foldl [] s w = ground arith
contains-foldl (x ∷ xs) s w = ground (arith, contains-foldl xs (add s x) w, contains-add s x w)

pub contains-init : (xs : List Text) (w : Text) → contains (init xs) w ≡ contains xs w
unfolding init contains
contains-init xs w = contains-foldl xs [] w

pub contains-append :
    (xs ys : List Text) (w : Text)
    → contains (xs ++ ys) w ≡ (if contains xs w then true else contains ys w)
unfolding contains
contains-append [] ys w = refl
contains-append (x ∷ xs) ys w = ground (arith, contains-append xs ys w)

pub contains-union :
    (a b : CaseInsensitiveSet) (w : Text)
    → contains (union a b) w ≡ (if contains a w then true else contains b w)
unfolding union
contains-union a b w = contains-init (a ++ b) w ∙ contains-append a b w

-- A test that does not tell the cases of a name apart selects by the key.
contains-select :
    (p : Text → Bool)
    → ((u v : Text) → same u v ≡ true → p u ≡ p v)
    → (xs : List Text) (w : Text)
    → contains (select p xs) w ≡ (if p w then contains xs w else false)
unfolding contains select
contains-select p resp [] w = ground arith
contains-select p resp (x ∷ xs) w =
    ground (arith, contains-select p resp xs w, resp x w, same_iff x w)

pub contains-inter :
    (a b : CaseInsensitiveSet) (w : Text)
    → contains (inter a b) w ≡ (if contains a w then contains b w else false)
unfolding inter
contains-inter a b w =
    contains-init (select (contains a) b) w ∙ contains-select (contains a) (contains_congr a) b w

pub contains-diff :
    (a b : CaseInsensitiveSet) (w : Text)
    → contains (diff a b) w ≡ (if contains b w then false else contains a w)
unfolding diff
contains-diff a b w =
    contains-init (select (λ v. not (contains b v)) a) w
    ∙ contains-select (λ v. not (contains b v)) (λ u v h. ap not (contains_congr b u v h)) a w
    ∙ ground arith

pub ruleset membership = (contains-init, contains-union, contains-inter, contains-diff)
