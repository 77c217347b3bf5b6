-- ===== src/Dcs/Raft/Limb.antt =====
-- `__expire_keys` of patroni/dcs/raft.py, which expires keys on the leader of the Raft cluster.
use patroni.Base.{
  eq_of_text_eq, text_eq_iff, Bool-cases, inl, inr, ℕ, suc, ◌≡◌, refl, Bool, true, false, not, ◌&&◌,
  ◌||◌, Option, none, some, List, [], ◌∷◌, ◌++◌, Text, text_eq, eq_of_text_eq, leb, all, any, arith,
  if◌then◌else◌,
}
use patroni.Dcs.Raft.{
  apply_expire, apply, run, opt_eq_time, Value, Data, lookup, put, remove, values_match, Command,
  set, delete, expire,
}
use patroni.Dcs.Raft.Store.{lookup-put, lookup-remove}

-- `'expire' in value and value['expire'] <= now`
unfoldable pub is_expired : ℕ → Option ℕ → Bool
is_expired now none = false
is_expired now (some t) = leb t now

in_limb : Option Value → Value → Bool
in_limb none v = false
in_limb (some u) v = values_match u v

-- The entry is expired, and its expiry is not under way.
unfoldable pub is_due : ℕ → Data → Text → Value → Bool
unfolding is_expired in_limb
is_due now limb key v = is_expired now v.expire && not (in_limb (lookup limb key) v)

-- `__expire_keys`: the limb after it, and the `_expire` commands.
unfoldable pub expire_keys : ℕ → Data → Data → Data × List Command
expire_keys now [] limb = (limb, [])
expire_keys now ((key, v) ∷ d) limb =
    let due = is_due now limb key v in
    let (limb', commands) = expire_keys now d (if due then put limb key v else limb) in
    (limb', if due then expire key v ∷ commands else commands)

-- The `key` and `value` that the callbacks see: they read the loop's variables when they are called,
-- after the loop.
unfoldable pub last_entry : Data → Option (Text × Value)
last_entry [] = none
last_entry (entry ∷ []) = some entry
last_entry (entry ∷ next ∷ d) = last_entry (next ∷ d)

-- `callback`
unfoldable pub callback : Option (Text × Value) → Data → Data
callback none limb = limb
callback (some (key, v)) limb =
    if (elim (lookup limb key) [ none ↦ false | some u ↦ values_match u v ])
    then remove limb key
    else limb

-- `_onTick`
unfoldable pub on_tick : Bool → ℕ → Data → Data → Data × List Command
on_tick is_leader now d limb = if is_leader then expire_keys now d limb else ([], [])

-- What happens on the leader: a pass of `__expire_keys` at a time, or a callback of a pass over data.
pub data LimbStep : Type 0 where
  expire_pass : ℕ → Data → LimbStep
  call_back : Data → LimbStep

-- The limb after the steps, and the `_expire` commands that they send.
unfoldable pub take_steps : List LimbStep → Data → Data × List Command
take_steps [] limb = (limb, [])
take_steps (LimbStep.expire_pass now d ∷ steps) limb =
    let (limb', commands) = expire_keys now d limb in
    let (limb'', later) = take_steps steps limb' in (limb'', commands ++ later)
take_steps (LimbStep.call_back d ∷ steps) limb = take_steps steps (callback (last_entry d) limb)

abbrev pub expires : ℕ → Command → Bool
expires now (expire key v) = is_expired now v.expire
expires now _ = false

expire_keys-expired :
    (now : ℕ) (d limb : Data) → all (expires now) (expire_keys now d limb).1 ≡ true
unfolding expire_keys all is_due
expire_keys-expired now [] limb = refl
expire_keys-expired now ((key, v) ∷ d) limb =
    ground
      (arith, expire_keys-expired now d (if is_due now limb key v then put limb key v else limb))

same_expire :
    (now : ℕ) (a b : Option ℕ) → opt_eq_time a b ≡ true → is_expired now a ≡ is_expired now b
unfolding is_expired
same_expire now none none h = refl
same_expire now none (some b) h = cc
same_expire now (some a) none h = cc
same_expire now (some a) (some b) h = ground arith

not_matching :
    (now : ℕ) (v w : Value)
    → is_expired now v.expire ≡ false
    → is_expired now w.expire ≡ true
    → values_match v w ≡ false
unfolding values_match
not_matching now v w fresh old = ground (arith, same_expire now v.expire w.expire)

apply_expire_spares :
    (d : Data) (now : ℕ) (key k : Text) (v w : Value)
    → lookup d key ≡ some v
    → is_expired now v.expire ≡ false
    → is_expired now w.expire ≡ true
    → lookup (apply_expire d k w).1 key ≡ some v
unfolding apply_expire
apply_expire_spares d now key k v w h fresh old = elim (Bool-cases (text_eq k key)) [
  | inl e ↦ rw (eq_of_text_eq k key e) (rw h (rw (not_matching now v w fresh old) h))
  | inr e ↦ ground (arith, h, lookup-remove d k key, text_eq_iff k key, text_eq_iff key k)
]

run_spares :
    (n now : ℕ) (d : Data) (cs : List Command) (key : Text) (v : Value)
    → all (expires now) cs ≡ true
    → lookup d key ≡ some v
    → is_expired now v.expire ≡ false
    → lookup (run n d cs) key ≡ some v
unfolding run all apply
run_spares n now d [] key v a h fresh = h
run_spares n now d (expire k w ∷ cs) key v a h fresh =
    run_spares (suc n) now (apply_expire d k w).1 cs key v (ground arith)
      (apply_expire_spares d now key k v w h fresh (ground arith)) fresh
run_spares n now d (set k w r ∷ cs) key v a h fresh = cc
run_spares n now d (delete k b r ∷ cs) key v a h fresh = cc

-- What is proposed for expiry at a time, from whatever data and limb, takes no value away that is
-- not expired at that time, wherever in the log it is applied: a key that was refreshed stays.
pub expire_keys_spares :
    (n now : ℕ) (d limb current : Data) (key : Text) (v : Value)
    → lookup current key ≡ some v
    → is_expired now v.expire ≡ false
    → lookup (run n current (expire_keys now d limb).1) key ≡ some v
expire_keys_spares n now d limb current key v h fresh =
    run_spares n now current (expire_keys now d limb).1 key v (expire_keys-expired now d limb) h
      fresh

-- All entries of the key have a value that matches.
abbrev pub AllMatch : Text → Value → Data → Type 0
AllMatch key v d = all (λ entry. not (text_eq entry.0 key) || values_match v entry.1) d ≡ true

abbrev pub is_last : Text → Option (Text × Value) → Bool
is_last key none = false
is_last key (some last) = text_eq key last.0

abbrev pub proposes : Text → Command → Bool
proposes key (expire k v) = text_eq k key
proposes key _ = false

module _ (now : ℕ) (key : Text) (v : Value) where
  not_due :
      (limb : Data) (k : Text) (w : Value)
      → lookup limb key ≡ some v
      → (not (text_eq k key) || values_match v w) ≡ true
      → text_eq k key ≡ true
      → is_due now limb k w ≡ false
  unfolding is_due
  not_due limb k w h m e = rw (eq_of_text_eq k key e) (rw h (ground arith))

  keeps_limb :
      (limb : Data) (k : Text) (w : Value)
      → lookup limb key ≡ some v
      → (not (text_eq k key) || values_match v w) ≡ true
      → lookup (if is_due now limb k w then put limb k w else limb) key ≡ some v
  keeps_limb limb k w h m = ground (arith, lookup-put limb k key w, not_due limb k w)

  expire_keys_blocked :
      (d limb : Data)
      → AllMatch key v d
      → lookup limb key ≡ some v
      → (any (proposes key) (expire_keys now d limb).1 ≡ false)
        × (lookup (expire_keys now d limb).0 key ≡ some v)
  unfolding expire_keys any all
  expire_keys_blocked [] limb m h = (refl, h)
  expire_keys_blocked ((k, w) ∷ d) limb m h =
      let limb' = if is_due now limb k w then put limb k w else limb in
      let rest =
        expire_keys_blocked d limb' (ground arith) (keeps_limb limb k w h (ground arith)) in
      (ground (arith, rest.0, not_due limb k w), rest.1)

-- The store has the key with a value that matches, if it has the key, and another key is the last one.
abbrev pub Stays : Text → Value → Data → Type 0
Stays key v d = AllMatch key v d × is_last key (last_entry d) ≡ false

abbrev pub AllStay : Text → Value → List LimbStep → Type 0
AllStay key v [] = Unit {0}
AllStay key v (LimbStep.expire_pass now d ∷ steps) = Stays key v d × AllStay key v steps
AllStay key v (LimbStep.call_back d ∷ steps) = Stays key v d × AllStay key v steps

callback_keeps :
    (last : Option (Text × Value)) (limb : Data) (key : Text) (v : Value)
    → is_last key last ≡ false
    → lookup limb key ≡ some v
    → lookup (callback last limb) key ≡ some v
unfolding callback
callback_keeps none limb key v n h = h
callback_keeps (some last) limb key v n h = ground (arith, h, lookup-remove limb last.0 key)

any-append :
    (p : Command → Bool) (xs ys : List Command)
    → any p xs ≡ false
    → any p ys ≡ false
    → any p (xs ++ ys) ≡ false
unfolding any
any-append p [] ys h k = k
any-append p (x ∷ xs) ys h k = ground (arith, any-append p xs ys)

-- Let a key be in the limb with a value, and let the store of each pass and callback have, if any, a
-- matching value for it, and another key last. Then, over any sequence of passes and callbacks, no
-- `_expire` for the key is sent, and the value stays in the limb: the callbacks look at the last key.
pub take_steps_stuck :
    (steps : List LimbStep) (limb : Data) (key : Text) (v : Value)
    → lookup limb key ≡ some v
    → AllStay key v steps
    → (any (proposes key) (take_steps steps limb).1 ≡ false)
      × (lookup (take_steps steps limb).0 key ≡ some v)
unfolding take_steps any
take_steps_stuck [] limb key v h a = (refl, h)
take_steps_stuck (LimbStep.expire_pass now d ∷ steps) limb key v h a =
    let (quiet, kept) = expire_keys_blocked now key v d limb a.0.0 h in
    let (later, stays) = take_steps_stuck steps (expire_keys now d limb).0 key v kept a.1 in
    (any-append (proposes key) (expire_keys now d limb).1 _ quiet later, stays)
take_steps_stuck (LimbStep.call_back d ∷ steps) limb key v h a =
    take_steps_stuck steps (callback (last_entry d) limb) key v
      (callback_keeps (last_entry d) limb key v a.0.1 h) a.1
