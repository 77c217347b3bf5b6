-- ===== src/Lsn.antt =====
-- `parse_lsn` and `format_lsn` of patroni/postgresql/misc.py.
pub mod RoundTrip
mod Examples
use patroni.Base.{
  ℕ, zero, suc, ◌+◌, ◌*◌, ◌-◌, ◌/◌, ◌%◌, Bool, true, false, ◌&&◌, Option, none, some, List, [], ◌∷◌,
  ◌++◌, Text, split_on, length, leb, ltb, if◌then◌else◌,
}

abbrev pub hex_digit : ℕ → ℕ
hex_digit d = if ltb d 10 then 48 + d else 55 + d

-- The digits of `{:X}`, on fuel: each takes a factor of 16, so one more than the number is enough.
unfoldable pub hex_within : ℕ → ℕ → Text
hex_within zero n = []
hex_within (suc fuel) n =
    let rest = hex_within fuel (n / 16) in
    if ltb n 16 then hex_digit n ∷ [] else rest ++ hex_digit (n % 16) ∷ []

abbrev pub hex : ℕ → Text
hex n = hex_within (suc n) n

-- As many zeros before the text.
abbrev pub zeros : ℕ → Text → Text
zeros zero s = s
zeros (suc n) s = 48 ∷ zeros n s

-- `{:08X}`
abbrev pub hex_padded : ℕ → Text
hex_padded n = zeros (8 - length (hex n)) (hex n)

unfoldable pub hex_value : ℕ → Option ℕ
hex_value c =
    if leb 48 c && leb c 57
    then some (c - 48)
    else if leb 65 c && leb c 70
    then some (c - 55)
    else if leb 97 c && leb c 102
    then some (c - 87)
    else none

-- `int(s, 16)` of hexadecimal digits, after those that were read; `none` is a `ValueError`. Signs,
-- spaces, underscores and the prefix `0x`, which `int` reads too, are not in a position of the log.
unfoldable pub read_hex : ℕ → Text → Option ℕ
read_hex n [] = some n
read_hex n (c ∷ s) = elim (hex_value c) [ none ↦ none | some d ↦ read_hex (n * 16 + d) s ]

parse_hex : Text → Option ℕ
unfolding read_hex
parse_hex [] = none
parse_hex (c ∷ s) = read_hex 0 (c ∷ s)

-- 2 ^ 32
abbrev pub word : ℕ
word = 4294967296

join_words : Option ℕ → Option ℕ → Option ℕ
join_words (some high) (some low) = some (high * word + low)
join_words _ _ = none

parse_parts : List Text → Option ℕ
unfolding parse_hex join_words
parse_parts (high ∷ low ∷ ts) = join_words (parse_hex high) (parse_hex low)
parse_parts _ = none

-- `none` is a `ValueError`, or an `IndexError` where there is no slash.
unfoldable pub parse_lsn : Text → Option ℕ
unfolding parse_parts
parse_lsn lsn = parse_parts (split_on b'/' lsn)

unfoldable pub format_lsn : ℕ → Bool → Text
format_lsn lsn full =
    hex (lsn / word) ++ b'/' ∷ (if full then hex_padded (lsn % word) else hex (lsn % word))
