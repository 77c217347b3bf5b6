-- ===== src/Sync/Names.antt =====
-- `parse_sync_standby_names` of patroni/postgresql/sync.py, with its tokenizer.
pub mod Prefixed
use patroni.Base.{
  ℕ, zero, suc, ◌+◌, ◌*◌, ◌-◌, Bool, true, false, not, ◌&&◌, ◌||◌, Option, none, some, List, [],
  ◌∷◌, ◌++◌, Text, codes, lower, text_eq, text_mem, is_space, length, take, null, leb, ◌==◌,
  if◌then◌else◌, ℤ, pos,
}
use patroni.Collections.CaseInsensitiveSet.{CaseInsensitiveSet, init, add, eq}

-- The named groups of `SYNC_REP_PARSER_RE` but `space`, with the text where it is read.
pub data Token : Type 0 where
  first_word any_word ident_word quoted_word : Text → Token
  star comma paren_start paren_end : Token
  number : ℕ → Token
  junk : ℕ → Token

abbrev pub is_letter : ℕ → Bool
is_letter c = (leb 65 c && leb c 90) || (leb 97 c && leb c 122)

abbrev pub is_digit : ℕ → Bool
is_digit c = leb 48 c && leb c 57

-- `[A-Za-z_]` and `[A-Za-z_0-9\$]`
abbrev pub is_ident_start : ℕ → Bool
is_ident_start c = is_letter c || c == 95

abbrev pub is_ident_part : ℕ → Bool
is_ident_part c = is_ident_start c || is_digit c || c == 36

-- `SYNC_STANDBY_NAME_RE`; its `$` also matches before a final newline.
is_name_rest : Text → Bool
is_name_rest [] = true
is_name_rest (c ∷ []) = is_ident_part c || c == 10
is_name_rest (c ∷ d ∷ s) = is_ident_part c && is_name_rest (d ∷ s)

unfoldable pub is_standby_name : Text → Bool
unfolding is_name_rest
is_standby_name [] = false
is_standby_name (c ∷ s) = is_ident_start c && is_name_rest s

-- `quote_ident` is psycopg's.
unfoldable pub quote_standby_name : (Text → Text) → Text → Text
quote_standby_name quote_ident value =
    if is_standby_name value && not (text_mem (lower value) (codes "first" ∷ codes "any" ∷ []))
    then value
    else quote_ident value

-- The longest prefix of such characters, and the rest.
unfoldable pub span : (ℕ → Bool) → Text → Text × Text
span p [] = ([], [])
span p (c ∷ s) = let (w, rest) = span p s in if p c then (c ∷ w, rest) else ([], c ∷ s)

-- The rest after a word, whatever its case.
unfoldable pub after_word : Text → Text → Option Text
after_word [] s = some s
after_word (x ∷ w) [] = none
after_word (x ∷ w) (c ∷ s) =
    let rest = after_word w s in if text_eq (lower (c ∷ [])) (x ∷ []) then rest else none

-- A quoted name after its opening quote: the text between the quotes, and the rest. A pair of quotes
-- belongs to the name if a closing quote follows.
unfoldable pub quoted : Text → Option (Text × Text)
quoted [] = none
quoted (c ∷ []) = if c == 34 then some ([], []) else none
quoted (c ∷ d ∷ s) =
    let one = quoted (d ∷ s) in
    let two = quoted s in
    if not (c == 34)
    then elim one [ none ↦ none | some (w, rest) ↦ some (c ∷ w, rest) ]
    else if not (d == 34)
    then some ([], d ∷ s)
    else elim two [ none ↦ some ([], d ∷ s) | some (w, rest) ↦ some (c ∷ d ∷ w, rest) ]

-- `replace('""', '"')`
unfoldable pub unquote : Text → Text
unquote [] = []
unquote (c ∷ []) = c ∷ []
unquote (c ∷ d ∷ s) =
    let one = c ∷ unquote (d ∷ s) in
    let two = c ∷ unquote s in if c == 34 && d == 34 then two else one

-- `int` of decimal digits
unfoldable pub number_of : ℕ → Text → ℕ
number_of n [] = n
number_of n (c ∷ s) = number_of (n * 10 + (c - 48)) s

single : ℕ → Token
single c =
    if c == 42
    then star
    else if c == 44
    then comma
    else if c == 40
    then paren_start
    else if c == 41
    then paren_end
    else junk c

-- An identifier, a number, a quoted name or one character, and the rest.
other_token : ℕ → Text → Token × Text
unfolding single quoted unquote number_of span
other_token c s =
    if is_ident_start c
    then (ident_word (span is_ident_part (c ∷ s)).0, (span is_ident_part (c ∷ s)).1)
    else if is_digit c
    then (number (number_of 0 (span is_digit (c ∷ s)).0), (span is_digit (c ∷ s)).1)
    else if c == 34
    then elim (quoted s) [ none ↦ (junk c, s) | some (w, rest) ↦ (quoted_word (unquote w), rest) ]
    else (single c, s)

-- One match of the alternatives, in their order; spaces are left out by `tokens`.
unfoldable pub next_token : ℕ → Text → Token × Text
unfolding other_token after_word
next_token c s = elim (after_word (codes "first") (c ∷ s)) [
  | some rest ↦ (first_word (take 5 (c ∷ s)), rest)
  | none ↦ elim (after_word (codes "any") (c ∷ s)) [
    | some rest ↦ (any_word (take 3 (c ∷ s)), rest)
    | none ↦ other_token c s
  ]
]

-- `finditer`, on fuel: each match takes at least one character, so the length is enough.
unfoldable pub tokens_within : ℕ → Text → List Token
tokens_within zero s = []
tokens_within (suc n) [] = []
tokens_within (suc n) (c ∷ s) =
    let skipped = tokens_within n s in
    let (t, rest) = next_token c s in
    let others = tokens_within n rest in if is_space c then skipped else t ∷ others

unfoldable pub tokens : Text → List Token
unfolding tokens_within
tokens s = tokens_within (length s) s

pub data SyncType : Type 0 where
  off priority quorum : SyncType

-- `_SSN`
pub record Ssn : Type 0 where
  pub sync_type : SyncType
  pub has_star : Bool
  pub num : ℕ
  pub members : CaseInsensitiveSet

abbrev pub empty_ssn : Ssn
empty_ssn = record { sync_type = off; has_star = false; num = 0; members = [] }

abbrev pub placeholder : Text
placeholder = codes "__patroni_strict_sync_replica_placeholder__"

-- The loop over `synclist`; the flag tells whether `i` is odd. `none` is a `ValueError`.
unfoldable pub parse_items :
    Bool → Bool → CaseInsensitiveSet → List Token → Option (Bool × CaseInsensitiveSet)
parse_items odd has_star members [] = some (has_star, members)
parse_items true has_star members (comma ∷ []) = none
parse_items true has_star members (comma ∷ t ∷ ts) = parse_items false has_star members (t ∷ ts)
parse_items true has_star members (_ ∷ ts) = none
parse_items false has_star members (first_word w ∷ ts) =
    parse_items true has_star (add members w) ts
parse_items false has_star members (any_word w ∷ ts) = parse_items true has_star (add members w) ts
parse_items false has_star members (ident_word w ∷ ts) =
    parse_items true has_star (add members w) ts
parse_items false has_star members (quoted_word w ∷ ts) =
    parse_items true has_star (add members w) ts
parse_items false has_star members (star ∷ ts) = parse_items true true (add members (codes "*")) ts
parse_items false has_star members (_ ∷ ts) = none

-- `tokens[n:-1]`, where the last token is a closing parenthesis.
unfoldable pub without_end : List Token → Option (List Token)
without_end [] = none
without_end (paren_end ∷ []) = some []
without_end (t ∷ []) = none
without_end (t ∷ u ∷ ts) = elim (without_end (u ∷ ts)) [ none ↦ none | some us ↦ some (t ∷ us) ]

finish : SyncType → ℕ → Option (Bool × CaseInsensitiveSet) → Option Ssn
finish sync_type num none = none
finish sync_type num (some (has_star, members)) = some (record {
  sync_type = sync_type;
  has_star = has_star;
  num = num;
  members = if eq members (init (placeholder ∷ [])) then [] else members;
})

unfoldable pub parse_list : SyncType → ℕ → List Token → Option Ssn
unfolding finish
parse_list sync_type num ts = finish sync_type num (parse_items false false [] ts)

-- A number of nodes and a list in parentheses, or, where the last token does not close it, a list.
parse_group : SyncType → ℕ → List Token → List Token → Option Ssn
unfolding parse_list
parse_group sync_type num ts rest = elim (without_end rest) [
  | none ↦ parse_list priority 1 ts
  | some list ↦ parse_list sync_type num list
]

unfoldable pub parse_tokens : List Token → Option Ssn
unfolding parse_group
parse_tokens [] = some empty_ssn
parse_tokens (any_word w ∷ number n ∷ paren_start ∷ ts) =
    parse_group quorum n (any_word w ∷ number n ∷ paren_start ∷ ts) ts
parse_tokens (first_word w ∷ number n ∷ paren_start ∷ ts) =
    parse_group priority n (first_word w ∷ number n ∷ paren_start ∷ ts) ts
parse_tokens (number n ∷ paren_start ∷ ts) = parse_group priority n (number n ∷ paren_start ∷ ts) ts
parse_tokens ts = parse_list priority 1 ts

-- `none` is a `ValueError`.
unfoldable pub parse_sync_standby_names : Text → Option Ssn
parse_sync_standby_names value = parse_tokens (tokens value)
