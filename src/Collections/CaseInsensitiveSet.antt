-- ===== src/Collections/CaseInsensitiveSet.antt =====
-- `CaseInsensitiveSet` of patroni/collections.py, with the operators that it inherits from
-- `collections.abc.MutableSet`. The dict `_values` has the key `v.lower()` for each value `v`, so a
-- set is given by its values, in insertion order. What the code changes in place is a new value.
pub mod Membership
pub mod Size
pub mod Order
use patroni.Base.{
  ℕ, Bool, true, false, not, ◌&&◌, List, [], ◌∷◌, ◌++◌, Text, text_eq, lower, length, null, select,
  all, ltb, leb, ◌==◌, if◌then◌else◌, foldl,
}

abbrev pub CaseInsensitiveSet : Type 0
CaseInsensitiveSet = List Text

-- Two values with one key.
unfoldable pub same : Text → Text → Bool
same u v = text_eq (lower u) (lower v)

-- `__contains__`
unfoldable pub contains : CaseInsensitiveSet → Text → Bool
contains [] v = false
contains (u ∷ s) v = if same u v then true else contains s v

-- `__len__`
abbrev pub len : CaseInsensitiveSet → ℕ
len = length

-- `add`: the position of the key stays, the value is overwritten.
unfoldable pub add : CaseInsensitiveSet → Text → CaseInsensitiveSet
add [] v = v ∷ []
add (u ∷ s) v = let rest = u ∷ add s v in if same u v then v ∷ s else rest

-- `discard`
unfoldable pub discard : CaseInsensitiveSet → Text → CaseInsensitiveSet
discard [] v = []
discard (u ∷ s) v = let rest = u ∷ discard s v in if same u v then s else rest

-- `__init__`
unfoldable pub init : List Text → CaseInsensitiveSet
unfolding add
init values = foldl add [] values

-- `self | other`
unfoldable pub union : CaseInsensitiveSet → CaseInsensitiveSet → CaseInsensitiveSet
union a b = init (a ++ b)

-- `self & other`: the values are those of `other`.
unfoldable pub inter : CaseInsensitiveSet → CaseInsensitiveSet → CaseInsensitiveSet
inter a b = init (select (contains a) b)

-- `self - other`
unfoldable pub diff : CaseInsensitiveSet → CaseInsensitiveSet → CaseInsensitiveSet
diff a b = init (select (λ v. not (contains b v)) a)

-- `self <= other`, and `issubset`
unfoldable pub issubset : CaseInsensitiveSet → CaseInsensitiveSet → Bool
issubset a b = if ltb (len b) (len a) then false else all (contains b) a

-- `self < other`; `self > other` is the same with its arguments swapped.
unfoldable pub lt : CaseInsensitiveSet → CaseInsensitiveSet → Bool
lt a b = ltb (len a) (len b) && issubset a b

-- `self == other`
unfoldable pub eq : CaseInsensitiveSet → CaseInsensitiveSet → Bool
eq a b = len a == len b && issubset a b
