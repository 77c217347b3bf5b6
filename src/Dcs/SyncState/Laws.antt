-- ===== src/Dcs/SyncState/Laws.antt =====
-- What is written to `/sync` is read back, and `matches` looks a name up among the members.
use patroni.Base.{
  ℕ, ◌≡◌, refl, sym, ap, ◌∙◌, inl, inr, Bool, true, false, not, Option, none, some, List, [], ◌∷◌,
  ◌++◌, map, Text, text_eq, text_eq_iff, lower, sorted, insert_sorted, strip, split_on, join_on,
  text_mem, ℤ, null, select, if◌then◌else◌, arith, Bool-cases,
}
use mathlib.Core.List.{append-nil}
use patroni.Base.Texts.Split.{
  Every, Lacks, split_on-join_on, sorted-Every, strip-lower, split_on-lower, null-lower,
  split_on_two,
}
use patroni.Collections.CaseInsensitiveSet.{same, contains}
use patroni.Dcs.SyncState.{
  SyncState, truthy, or_empty, from_node, is_empty, str_to_list, voters, members, matches,
  sync_state,
}

-- A member name that survives the list: not empty, no comma, no space around it.
pub record IsName (t : Text) : Type 0 where
  pub some_text : null t ≡ false
  pub no_comma : Lacks b',' t
  pub stripped : strip t ≡ t

strip_names : (ts : List Text) → Every IsName ts → map strip ts ≡ ts
strip_names [] e = refl
strip_names (t ∷ ts) e = rw (e.0.stripped, strip_names ts e.1)

select_names : (ts : List Text) → Every IsName ts → select (λ a. not (null a)) ts ≡ ts
unfolding select
select_names [] e = refl
select_names (t ∷ ts) e = rw (e.0.some_text, select_names ts e.1)

names_lack : (ts : List Text) → Every IsName ts → Every (Lacks b',') ts
names_lack [] e = tt
names_lack (t ∷ ts) e = (e.0.no_comma, names_lack ts e.1)

str_to_list-join :
    (ts : List Text) → null ts ≡ false → Every IsName ts → str_to_list (join_on b',' ts) ≡ ts
unfolding str_to_list
str_to_list-join [] n e = cc
str_to_list-join (t ∷ ts) n e =
    rw (split_on-join_on b',' t ts (names_lack (t ∷ ts) e), strip_names (t ∷ ts) e)
      (select_names (t ∷ ts) e)

join-some_text :
    (ts : List Text) → null ts ≡ false → Every IsName ts → null (join_on b',' ts) ≡ false
unfolding join_on
join-some_text [] n e = cc
join-some_text (t ∷ []) n e = e.0.some_text
join-some_text ([] ∷ u ∷ ts) n e = refl
join-some_text ((x ∷ t) ∷ u ∷ ts) n e = refl

insert_sorted-some : (t : Text) (ts : List Text) → null (insert_sorted t ts) ≡ false
unfolding insert_sorted
insert_sorted-some t [] = refl
insert_sorted-some t (u ∷ ts) = ground arith

-- Voters whose names are not empty, have no comma and no blanks around them, written to `/sync` under
-- the name of a leader that is not empty, are read back, sorted.
pub voters-from_node :
    (version : Option ℕ) (leader : Text) (names : List Text) (quorum : Option ℤ)
    → null leader ≡ false
    → Every IsName names
    → voters (from_node version (some (sync_state (some leader) (some names) quorum)))
      ≡ sorted names
unfolding voters from_node sync_state
voters-from_node version leader [] quorum l e = rw l (unfold sorted in refl)
voters-from_node version leader (t ∷ ts) quorum l e =
    let some_names : null (sorted (t ∷ ts)) ≡ false =
      unfold sorted in insert_sorted-some t (sorted ts) in
    let names = sorted-Every IsName (t ∷ ts) e in
    rw (l, join-some_text (sorted (t ∷ ts)) some_names names)
      (str_to_list-join (sorted (t ∷ ts)) some_names names)

map-strip-lower : (ts : List Text) → map strip (map lower ts) ≡ map lower (map strip ts)
map-strip-lower [] = refl
map-strip-lower (t ∷ ts) = rw (strip-lower t, map-strip-lower ts)

select-lower :
    (ts : List Text)
    → select (λ a. not (null a)) (map lower ts) ≡ map lower (select (λ a. not (null a)) ts)
unfolding select
select-lower [] = refl
select-lower (t ∷ ts) = ground (arith, null-lower t, select-lower ts)

str_to_list-lower : (v : Text) → str_to_list (lower v) ≡ map lower (str_to_list v)
unfolding str_to_list
str_to_list-lower v =
    rw (split_on-lower v, map-strip-lower (split_on b',' v))
      (select-lower (map strip (split_on b',' v)))

text_eq_comm : (a b : Text) → text_eq a b ≡ text_eq b a
text_eq_comm a b = ground (arith, text_eq_iff a b, text_eq_iff b a)

text_mem-lower : (n : Text) (ts : List Text) → text_mem (lower n) (map lower ts) ≡ contains ts n
unfolding text_mem contains same
text_mem-lower n [] = refl
text_mem-lower n (t ∷ ts) = rw (text_eq_comm (lower n) (lower t), text_mem-lower n ts)

select-append :
    (p : Text → Bool) (ts us : List Text) → select p (ts ++ us) ≡ select p ts ++ select p us
unfolding select
select-append p [] us = refl
select-append p (t ∷ ts) us = ground (arith, select-append p ts us)

map-append_strip : (ts us : List Text) → map strip (ts ++ us) ≡ map strip ts ++ map strip us
map-append_strip [] us = refl
map-append_strip (t ∷ ts) us = ap (◌∷◌ (strip t)) (map-append_strip ts us)

str_to_list_two : (a b : Text) → str_to_list (a ++ b',' ∷ b) ≡ str_to_list a ++ str_to_list b
unfolding str_to_list
str_to_list_two a b =
    rw (split_on_two b',' a b, map-append_strip (split_on b',' a) (split_on b',' b))
      (select-append (λ t. not (null t)) (map strip (split_on b',' a))
        (map strip (split_on b',' b)))

listed-eq :
    (o : Option Text)
    → (if truthy o then str_to_list (or_empty o) else []) ≡ str_to_list (or_empty o)
unfolding str_to_list split_on strip select
listed-eq none = refl
listed-eq (some []) = refl
listed-eq (some (c ∷ t)) = refl

-- A missing list is read as an empty one.
voters-eq : (s : SyncState) → is_empty s ≡ false → voters s ≡ str_to_list (or_empty s.sync_standby)
unfolding voters
voters-eq s h = ground (arith, listed-eq s.sync_standby)

lower-nil : lower [] ≡ []
unfolding lower
lower-nil = refl

-- Without the leader, `matches` tells whether a name that is not empty is, up to case, among the voters.
pub matches_voters :
    (s : SyncState) (name : Text)
    → null name ≡ false
    → matches s (some name) false ≡ contains (voters s) name
matches_voters s name n = elim (Bool-cases (is_empty s)) [
  | inl e ↦ unfold matches voters contains in ground arith
  | inr e ↦ rw (voters-eq s e) (
      unfold matches in
      rw n (
        rw append-nil (
          rw (e, str_to_list-lower (or_empty s.sync_standby))
            (text_mem-lower name (str_to_list (or_empty s.sync_standby))))))
]

contains-append_one :
    (ts : List Text) (l n : Text) → contains (ts ++ l ∷ []) n ≡ contains (l ∷ ts) n
unfolding contains
contains-append_one [] l n = refl
contains-append_one (t ∷ ts) l n = ground (arith, contains-append_one ts l n)

str_to_list_name : (l : Text) → IsName l → str_to_list l ≡ l ∷ []
str_to_list_name l e = unfold join_on in str_to_list-join (l ∷ []) refl (e, tt)

-- With a leader whose name is not empty, has no comma and no blanks around it, it tells whether a name
-- that is not empty is, up to case, among the members.
pub matches_members :
    (s : SyncState) (leader name : Text)
    → s.leader ≡ some leader
    → IsName leader
    → null name ≡ false
    → matches s (some name) true ≡ contains (members s) name
matches_members s leader name h l n =
    listed ∙ contains-append_one (str_to_list (or_empty s.sync_standby)) leader name ∙ sym among
  where
    valid : is_empty s ≡ false
    valid = unfold is_empty in rw h (ap not (ap not l.some_text))

    both : List Text
    both = str_to_list (or_empty s.sync_standby) ++ leader ∷ []

    listed : matches s (some name) true ≡ contains both name
    listed =
        unfold matches in
        rw n (
          rw h (
            rw l.some_text (
              rw
                (
                  str_to_list-lower (or_empty s.sync_standby ++ b',' ∷ leader),
                  str_to_list_two (or_empty s.sync_standby) leader,
                  str_to_list_name leader l,
                )
                (text_mem-lower name both))))

    among :
        contains (members s) name ≡ contains (leader ∷ str_to_list (or_empty s.sync_standby)) name
    among = unfold members in rw (voters-eq s valid) (rw h (rw l.some_text))
