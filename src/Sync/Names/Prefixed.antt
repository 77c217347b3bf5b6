-- ===== src/Sync/Names/Prefixed.antt =====
-- Node names that begin with a keyword: `quote_standby_name` and `parse_sync_standby_names` of
-- patroni/postgresql/sync.py.
use patroni.Base.{
  ℕ, suc, ◌≡◌, refl, Bool, true, false, none, List, ◌∷◌, ◌++◌, Text, codes, text_eq, text_mem,
  lower, length, is_space, arith,
}
use patroni.Sync.Names.{
  Token, first_word, any_word, ident_word, quoted_word, star, comma, paren_start, paren_end, number,
  junk, is_ident_start, after_word, next_token, other_token, tokens_within, tokens, parse_items,
  parse_list, finish, parse_tokens, parse_sync_standby_names, is_standby_name, quote_standby_name,
}

abbrev is_word : Token → Bool
is_word (first_word w) = true
is_word (any_word w) = true
is_word (ident_word w) = true
is_word _ = false

ident-no_space : (c : ℕ) → is_ident_start c ≡ true → is_space c ≡ false
unfolding is_space
ident-no_space c h = ground arith

next_token-is_word :
    (c : ℕ) (s : Text) → is_ident_start c ≡ true → is_word (next_token c s).0 ≡ true
unfolding next_token other_token
next_token-is_word c s h = ground arith

two_words_fail :
    (w : Text) (t : Token) (ts : List Token)
    → is_word t ≡ true
    → parse_tokens (any_word w ∷ t ∷ ts) ≡ none
unfolding parse_tokens parse_list parse_items finish
two_words_fail w (first_word u) ts h = refl
two_words_fail w (any_word u) ts h = refl
two_words_fail w (ident_word u) ts h = refl
two_words_fail w (quoted_word u) ts h = cc
two_words_fail w star ts h = cc
two_words_fail w comma ts h = cc
two_words_fail w paren_start ts h = cc
two_words_fail w paren_end ts h = cc
two_words_fail w (number n) ts h = cc
two_words_fail w (junk c) ts h = cc

tokens_within-word :
    (n c : ℕ) (s : Text)
    → is_ident_start c ≡ true
    → tokens_within (suc n) (c ∷ s) ≡ (next_token c s).0 ∷ tokens_within n (next_token c s).1
unfolding tokens_within
tokens_within-word n c s h = rw (ident-no_space c h) refl

tokens_any :
    (s : Text)
    → tokens (codes "any" ++ s) ≡ any_word (codes "any") ∷ tokens_within (suc (suc (length s))) s
unfolding tokens tokens_within next_token after_word is_space text_eq lower
tokens_any s = refl

quote_any :
    (quote_ident : Text → Text) (c : ℕ) (s : Text)
    → is_standby_name (codes "any" ++ c ∷ s) ≡ true
    → quote_standby_name quote_ident (codes "any" ++ c ∷ s) ≡ codes "any" ++ c ∷ s
unfolding quote_standby_name text_mem text_eq lower
quote_any quote_ident c s name = rw name refl

parse_any_prefixed :
    (c : ℕ) (s : Text)
    → is_ident_start c ≡ true
    → parse_sync_standby_names (codes "any" ++ c ∷ s) ≡ none
unfolding parse_sync_standby_names
parse_any_prefixed c s h =
    rw (tokens_any (c ∷ s), tokens_within-word (suc (suc (length s))) c s h)
      (two_words_fail (codes "any") (next_token c s).0
        (tokens_within (suc (suc (length s))) (next_token c s).1) (next_token-is_word c s h))

-- A standby name that goes on after the letters `any` with a letter or an underscore is written to
-- `synchronous_standby_names` as it is, and is not parsed from there: the tokenizer takes the keyword
-- off the name.
pub quote_standby_name-unparsed :
    (quote_ident : Text → Text) (c : ℕ) (s : Text)
    → is_ident_start c ≡ true
    → is_standby_name (codes "any" ++ c ∷ s) ≡ true
    → (quote_standby_name quote_ident (codes "any" ++ c ∷ s) ≡ codes "any" ++ c ∷ s)
      × (parse_sync_standby_names (quote_standby_name quote_ident (codes "any" ++ c ∷ s)) ≡ none)
quote_standby_name-unparsed quote_ident c s start name =
    let kept = quote_any quote_ident c s name in (kept, rw kept (parse_any_prefixed c s start))
