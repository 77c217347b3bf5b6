-- ===== src/Lsn/RoundTrip.antt =====
-- A position of the log is read back as it was printed: patroni/postgresql/misc.py.
use patroni.Base.{
  ℕ, zero, suc, ◌+◌, ◌*◌, ◌-◌, ◌/◌, ◌%◌, ◌<◌, ◌≡◌, refl, sym, ap, ◌∙◌, Bool, true, false, none,
  some, [], ◌∷◌, ◌++◌, Text, length, ltb, ◌==◌, arith, null, Option-cases, Bool-cases, inl, inr,
}
use patroni.Base.Texts.Split.{Lacks, split_on-append, split_on_lacking}
use patroni.Lsn.{
  hex_digit, hex_within, hex, zeros, hex_padded, hex_value, read_hex, parse_hex, word, join_words,
  parse_parts, parse_lsn, format_lsn,
}

hex_value-hex_digit : (d : ℕ) → d < 16 → hex_value (hex_digit d) ≡ some d
unfolding hex_value
hex_value-hex_digit d h = ground arith

read_hex-append :
    (s t : Text) (m k : ℕ) → read_hex m s ≡ some k → read_hex m (s ++ t) ≡ read_hex k t
unfolding read_hex
read_hex-append [] t m k h = ground arith
read_hex-append (c ∷ s) t m k h = elim (Option-cases (hex_value c)) [
  | inl e ↦ absurd (not_some k (sym (refused m c s e) ∙ h))
  | inr (d, e) ↦
      accepted m c d (s ++ t) e ∙ read_hex-append s t (m * 16 + d) k (sym (accepted m c d s e) ∙ h)
]
  where
    refused : (m c : ℕ) (s : Text) → hex_value c ≡ none → read_hex m (c ∷ s) ≡ none
    refused m c s e = rw (read_hex, e) refl

    accepted :
        (m c d : ℕ) (s : Text) → hex_value c ≡ some d → read_hex m (c ∷ s) ≡ read_hex (m * 16 + d) s
    accepted m c d s e = rw (read_hex, e) refl

    not_some : (k : ℕ) → none ≡ some k → ⊥
    not_some k h = cc

read_digit : (m d : ℕ) → d < 16 → read_hex m (hex_digit d ∷ []) ≡ some (m * 16 + d)
unfolding read_hex
read_digit m d h = rw (read_hex, hex_value-hex_digit d h) refl

below_ltb : (n : ℕ) → ltb n 16 ≡ true → n < 16
below_ltb n h = ground arith

quotient_smaller : (n : ℕ) → ltb n 16 ≡ false → n / 16 < n
quotient_smaller n h = ground arith

remainder_small : (n : ℕ) → n % 16 < 16
remainder_small n = omega arith

quotient_remainder : (n : ℕ) → n / 16 * 16 + n % 16 ≡ n
quotient_remainder n = omega arith

zero_times : (n : ℕ) → 0 * 16 + n ≡ n
zero_times n = omega arith

read_hex-hex : (fuel n : ℕ) → n < fuel → read_hex 0 (hex_within fuel n) ≡ some n
unfolding hex_within
read_hex-hex zero n h = absurd (omega arith)
read_hex-hex (suc fuel) n h = elim (Bool-cases (ltb n 16)) [
  | inl e ↦ rw e (read_digit 0 n (below_ltb n e) ∙ ap some (zero_times n))
  | inr e ↦ rw e (
      read_hex-append (hex_within fuel (n / 16)) (hex_digit (n % 16) ∷ []) 0 (n / 16)
        (read_hex-hex fuel (n / 16) (omega (arith, quotient_smaller n e)))
      ∙ read_digit (n / 16) (n % 16) (remainder_small n)
      ∙ ap some (quotient_remainder n))
]

read_hex-zeros : (k : ℕ) (s : Text) → read_hex 0 (zeros k s) ≡ read_hex 0 s
unfolding read_hex hex_value
read_hex-zeros zero s = refl
read_hex-zeros (suc k) s = read_hex-zeros k s

-- No slash among the digits.
digit_no_slash : (d : ℕ) → d < 16 → (hex_digit d == 47) ≡ false
digit_no_slash d h = ground arith

Lacks-append : (s t : Text) → Lacks 47 s → Lacks 47 t → Lacks 47 (s ++ t)
Lacks-append [] t a b = b
Lacks-append (c ∷ s) t a b = (a.0, Lacks-append s t a.1 b)

hex_within-Lacks : (fuel n : ℕ) → Lacks 47 (hex_within fuel n)
unfolding hex_within
hex_within-Lacks zero n = tt
hex_within-Lacks (suc fuel) n = elim (Bool-cases (ltb n 16)) [
  | inl e ↦ rw e (digit_no_slash n (below_ltb n e), tt)
  | inr e ↦ rw e (
      Lacks-append (hex_within fuel (n / 16)) (hex_digit (n % 16) ∷ [])
        (hex_within-Lacks fuel (n / 16)) (digit_no_slash (n % 16) (remainder_small n), tt))
]

zeros-Lacks : (k : ℕ) (s : Text) → Lacks 47 s → Lacks 47 (zeros k s)
zeros-Lacks zero s l = l
zeros-Lacks (suc k) s l = (refl, zeros-Lacks k s l)

parse_hex-eq : (s : Text) (n : ℕ) → null s ≡ false → read_hex 0 s ≡ some n → parse_hex s ≡ some n
unfolding parse_hex
parse_hex-eq [] n f h = cc
parse_hex-eq (c ∷ s) n f h = h

append-some_text : (s : Text) (c : ℕ) → null (s ++ c ∷ []) ≡ false
append-some_text [] c = refl
append-some_text (x ∷ s) c = refl

hex-some_text : (n : ℕ) → null (hex n) ≡ false
unfolding hex_within
hex-some_text n = elim (Bool-cases (ltb n 16)) [
  | inl e ↦ rw e refl
  | inr e ↦ rw e (append-some_text (hex_within n (n / 16)) (hex_digit (n % 16)))
]

zeros-some_text : (k : ℕ) (s : Text) → null s ≡ false → null (zeros k s) ≡ false
zeros-some_text zero s h = h
zeros-some_text (suc k) s h = refl

parse_hex-hex : (n : ℕ) → parse_hex (hex n) ≡ some n
parse_hex-hex n = parse_hex-eq (hex n) n (hex-some_text n) (read_hex-hex (suc n) n (omega arith))

parse_hex-hex_padded : (n : ℕ) → parse_hex (hex_padded n) ≡ some n
parse_hex-hex_padded n =
    parse_hex-eq (hex_padded n) n (zeros-some_text (8 - length (hex n)) (hex n) (hex-some_text n))
      (read_hex-zeros (8 - length (hex n)) (hex n) ∙ read_hex-hex (suc n) n (omega arith))

words_joined : (n : ℕ) → n / word * word + n % word ≡ n
words_joined n = omega arith

parse_two :
    (n : ℕ) (low : Text)
    → Lacks 47 low
    → parse_hex low ≡ some (n % word)
    → parse_lsn (hex (n / word) ++ b'/' ∷ low) ≡ some n
unfolding parse_lsn parse_parts join_words
parse_two n low l h =
    rw
      (
        split_on-append 47 (hex (n / word)) low (hex_within-Lacks (suc (n / word)) (n / word)),
        split_on_lacking 47 low l,
      )
      (rw (parse_hex-hex (n / word), h) (ap some (words_joined n)))

-- A position of the log is read back from either of its printed forms.
pub parse_lsn-format_lsn : (n : ℕ) (full : Bool) → parse_lsn (format_lsn n full) ≡ some n
unfolding format_lsn
parse_lsn-format_lsn n true =
    parse_two n (hex_padded (n % word))
      (zeros-Lacks (8 - length (hex (n % word))) (hex (n % word))
        (hex_within-Lacks (suc (n % word)) (n % word)))
      (parse_hex-hex_padded (n % word))
parse_lsn-format_lsn n false =
    parse_two n (hex (n % word)) (hex_within-Lacks (suc (n % word)) (n % word))
      (parse_hex-hex (n % word))
