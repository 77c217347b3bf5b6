-- ===== src/Dcs/Raft/Leader.antt =====
-- The leader key of patroni/dcs/raft.py: the requests of `Raft`, and who may hold the key.
use patroni.Base.{
  ℕ, suc, ◌+◌, ◌≡◌, inl, inr, Bool, true, false, Option, none, some, List, [], ◌∷◌, Text, text_eq,
  text_eq_refl, refl, arith, if◌then◌else◌, Bool-cases,
}
use patroni.Dcs.Raft.{
  Value, Data, lookup, Requirements, check_requirements, values_match, Command, set, delete, expire,
  apply_set, apply_delete, apply_expire, apply, run, renew, put, propose_set, propose_delete,
}
use patroni.Dcs.Raft.Store.{lookup-put, lookup-remove}

-- `prevExist=False`, `prevValue=name` and no condition.
abbrev pub if_absent : Requirements
if_absent = record { prev_exist = some false; prev_value = none; prev_index = none }

abbrev pub if_held_by : Text → Requirements
if_held_by name = record { prev_exist = none; prev_value = some name; prev_index = none }

-- `attempt_to_acquire_leader`
unfoldable pub attempt_to_acquire_leader : ℕ → Data → Text → Text → ℕ → Option Command
attempt_to_acquire_leader now d leader_path name ttl =
    propose_set now d leader_path name (some ttl) if_absent

-- The two requests of `_update_leader`: the second is made where the first fails and the key is gone.
unfoldable pub update_leader : ℕ → Data → Text → Text → ℕ → Option Command
update_leader now d leader_path name ttl =
    propose_set now d leader_path name (some ttl) (if_held_by name)

acquire_if_gone : ℕ → Data → Text → Text → ℕ → Option Value → Option Command
unfolding attempt_to_acquire_leader
acquire_if_gone now d leader_path name ttl none =
    attempt_to_acquire_leader now d leader_path name ttl
acquire_if_gone now d leader_path name ttl (some v) = none

unfoldable pub update_leader_again : Bool → ℕ → Data → Text → Text → ℕ → Option Command
unfolding acquire_if_gone
update_leader_again succeeded now d leader_path name ttl =
    if succeeded then none else acquire_if_gone now d leader_path name ttl (lookup d leader_path)

-- `_delete_leader`
unfoldable pub delete_leader : Data → Text → Text → Option Command
delete_leader d leader_path name = propose_delete d leader_path false (if_held_by name)

-- `take_leader`, at the end of a bootstrap: no condition.
abbrev pub unconditional : Requirements
unconditional = record { prev_exist = none; prev_value = none; prev_index = none }

unfoldable pub take_leader : ℕ → Data → Text → Text → ℕ → Option Command
take_leader now d leader_path name ttl = propose_set now d leader_path name (some ttl) unconditional

-- The commands of the node `name` for the leader key that carry a condition: those of
-- `attempt_to_acquire_leader`, `_update_leader` and `_delete_leader`, but not that of `take_leader`.
pub data IsGuarded (leader_path name : Text) : Command → Type 0 where
  acquire : (v : Value) → IsGuarded leader_path name (set leader_path v if_absent)
  update : (v : Value) → IsGuarded leader_path name (set leader_path v (if_held_by name))
  release : IsGuarded leader_path name (delete leader_path false (if_held_by name))

-- A command of another node on the leader key that carries such a condition, or one that
-- concerns another key, or expires a value that is not the one that is held.
pub data Harmless (leader_path : Text) (held : Value) : Command → Type 0 where
  of_other :
      (name : Text) (c : Command)
      → text_eq held.value name ≡ false
      → IsGuarded leader_path name c
      → Harmless leader_path held c
  set_elsewhere :
      (key : Text) (v : Value) (r : Requirements)
      → text_eq key leader_path ≡ false
      → Harmless leader_path held (set key v r)
  delete_elsewhere :
      (key : Text) (r : Requirements)
      → text_eq leader_path key ≡ false
      → Harmless leader_path held (delete key false r)
  expire_elsewhere :
      (key : Text) (v : Value)
      → text_eq leader_path key ≡ false
      → Harmless leader_path held (expire key v)
  expire_outdated :
      (v : Value) → values_match held v ≡ false → Harmless leader_path held (expire leader_path v)

abbrev pub AllHarmless : Text → Value → List Command → Type 0
AllHarmless path held [] = Unit {0}
AllHarmless path held (c ∷ cs) = Harmless path held c × AllHarmless path held cs

module _ (n : ℕ) (d : Data) (path : Text) (held : Value) (h : lookup d path ≡ some held) where
  acquire_refused : (v : Value) → lookup (apply_set n d path v if_absent).1 path ≡ some held
  unfolding apply_set check_requirements
  acquire_refused v = rw h h

  update_refused :
      (name : Text) (v : Value)
      → text_eq held.value name ≡ false
      → lookup (apply_set n d path v (if_held_by name)).1 path ≡ some held
  unfolding apply_set check_requirements
  update_refused name v other = rw h (rw other h)

  release_refused :
      (name : Text)
      → text_eq held.value name ≡ false
      → lookup (apply_delete d path false (if_held_by name)).1 path ≡ some held
  unfolding apply_delete check_requirements
  release_refused name other = rw h (rw other h)

  set_elsewhere_keeps :
      (key : Text) (v : Value) (r : Requirements)
      → text_eq key path ≡ false
      → lookup (apply_set n d key v r).1 path ≡ some held
  unfolding apply_set
  set_elsewhere_keeps key v r other =
      ground (arith, h, lookup-put d key path (record (renew (lookup d key) v) { index = n + 1 }))

  delete_elsewhere_keeps :
      (key : Text) (r : Requirements)
      → text_eq path key ≡ false
      → lookup (apply_delete d key false r).1 path ≡ some held
  unfolding apply_delete
  delete_elsewhere_keeps key r other = ground (arith, h, lookup-remove d key path)

  expire_keeps :
      (key : Text) (v : Value)
      → text_eq path key ≡ false
      → lookup (apply_expire d key v).1 path ≡ some held
  unfolding apply_expire
  expire_keeps key v other = ground (arith, h, lookup-remove d key path)

  expire_outdated_keeps :
      (v : Value) → values_match held v ≡ false → lookup (apply_expire d path v).1 path ≡ some held
  unfolding apply_expire
  expire_outdated_keeps v old = rw h (rw old h)

  Harmless-keeps : (c : Command) → Harmless path held c → lookup (apply n d c).1 path ≡ some held
  unfolding apply
  Harmless-keeps c (Harmless.of_other name _ other (IsGuarded.acquire v)) = acquire_refused v
  Harmless-keeps c (Harmless.of_other name _ other (IsGuarded.update v)) =
      update_refused name v other
  Harmless-keeps c (Harmless.of_other name _ other IsGuarded.release) = release_refused name other
  Harmless-keeps c (Harmless.set_elsewhere key v r other) = set_elsewhere_keeps key v r other
  Harmless-keeps c (Harmless.delete_elsewhere key r other) = delete_elsewhere_keeps key r other
  Harmless-keeps c (Harmless.expire_elsewhere key v other) = expire_keeps key v other
  Harmless-keeps c (Harmless.expire_outdated v old) = expire_outdated_keeps v old

-- While a node holds the leader key, what other nodes send to acquire, to update or to release it, what
-- is sent for other keys without recursion, and the expiry of a value that was refreshed since, leave
-- the key as it is; `take_leader` of another node is left out.
pub leader_key_kept :
    (n : ℕ) (d : Data) (path : Text) (held : Value) (log : List Command)
    → lookup d path ≡ some held
    → AllHarmless path held log
    → lookup (run n d log) path ≡ some held
unfolding run
leader_key_kept n d path held [] h a = h
leader_key_kept n d path held (c ∷ cs) h a =
    leader_key_kept (suc n) (apply n d c).1 path held cs (Harmless-keeps n d path held h c a.0) a.1

-- A request that is sent carries such a condition.
abbrev pub SendsGuarded : Text → Text → Option Command → Type 0
SendsGuarded path name none = Unit {0}
SendsGuarded path name (some c) = IsGuarded path name c

module _ (now : ℕ) (d : Data) (path name : Text) (ttl : ℕ) where
  attempt_sends : SendsGuarded path name (attempt_to_acquire_leader now d path name ttl)
  unfolding attempt_to_acquire_leader propose_set
  attempt_sends = elim (Bool-cases (check_requirements (lookup d path) if_absent)) [
    | inl e ↦ rw e (IsGuarded.acquire _)
    | inr e ↦ rw e tt
  ]

  update_sends : SendsGuarded path name (update_leader now d path name ttl)
  unfolding update_leader propose_set
  update_sends = elim (Bool-cases (check_requirements (lookup d path) (if_held_by name))) [
    | inl e ↦ rw e (IsGuarded.update _)
    | inr e ↦ rw e tt
  ]

  acquire_sends :
      (o : Option Value) → SendsGuarded path name (acquire_if_gone now d path name ttl o)
  unfolding acquire_if_gone
  acquire_sends none = attempt_sends
  acquire_sends (some v) = tt

  again_sends :
      (succeeded : Bool)
      → SendsGuarded path name (update_leader_again succeeded now d path name ttl)
  unfolding update_leader_again
  again_sends true = tt
  again_sends false = acquire_sends (lookup d path)

  delete_sends : SendsGuarded path name (delete_leader d path name)
  unfolding delete_leader propose_delete
  delete_sends = elim (Bool-cases (check_requirements (lookup d path) (if_held_by name))) [
    | inl e ↦ rw e IsGuarded.release
    | inr e ↦ rw e tt
  ]

abbrev pub is_held_by : Text → Option Value → Bool
is_held_by name none = false
is_held_by name (some v) = text_eq v.value name

-- A request that is sent leaves the key with the node, whoever held it.
abbrev pub SendsTaking : ℕ → Data → Text → Text → Option Command → Type 0
SendsTaking n d path name none = ⊥
SendsTaking n d path name (some c) = is_held_by name (lookup (apply n d c).1 path) ≡ true

renew_value : (old : Option Value) (v : Value) → (renew old v).value ≡ v.value
unfolding renew
renew_value none v = refl
renew_value (some u) v = ground arith

taken :
    (n : ℕ) (d : Data) (path : Text) (v : Value)
    → is_held_by v.value
        (lookup (put d path (record (renew (lookup d path) v) { index = n + 1 })) path)
      ≡ true
taken n d path v =
    rw (lookup-put d path path _, text_eq_refl path, renew_value (lookup d path) v)
      (text_eq_refl v.value)

take_sends :
    (n now : ℕ) (d d' : Data) (path name : Text) (ttl : ℕ)
    → SendsTaking n d' path name (take_leader now d path name ttl)
unfolding take_leader propose_set check_requirements apply apply_set
take_sends n now d d' path name ttl =
    taken n d' path (record { value = name; updated = now; created = _; expire = _; index = 0 })

-- What a node sends to acquire the leader key, to update it, to acquire it again where the update fails,
-- and to release it, carries the condition that the key is absent, or that it holds the node's own name.
-- The exception is `take_leader`: it is always sent, and takes the key from whoever holds it.
pub leader_requests-IsGuarded :
    (now : ℕ) (d : Data) (path name : Text) (ttl : ℕ) (succeeded : Bool) (n : ℕ) (d' : Data)
    → SendsGuarded path name (attempt_to_acquire_leader now d path name ttl)
      × SendsGuarded path name (update_leader now d path name ttl)
      × SendsGuarded path name (update_leader_again succeeded now d path name ttl)
      × SendsGuarded path name (delete_leader d path name)
      × SendsTaking n d' path name (take_leader now d path name ttl)
leader_requests-IsGuarded now d path name ttl succeeded n d' = (
  attempt_sends now d path name ttl,
  update_sends now d path name ttl,
  again_sends now d path name ttl succeeded,
  delete_sends now d path name ttl,
  take_sends n now d d' path name ttl,
)
