-- ===== src/Dcs/Raft.antt =====
-- The replicated store of patroni/dcs/raft.py, `KVStoreTTL`, and the leader key of `Raft`.
pub mod Store
pub mod Leader
pub mod Limb
pub mod Watch
mod Examples
use patroni.Base.{
  ℕ, suc, ◌+◌, Bool, true, false, not, ◌&&◌, ◌||◌, Option, none, some, List, [], ◌∷◌, ◌++◌, map,
  Text, text_eq, starts_with, ◌==◌, leb, null, select, if◌then◌else◌,
}

-- A stored dictionary. Times are those of the clock; `_set` assigns `index`.
pub record Value : Type 0 where
  pub value : Text
  pub updated : ℕ
  pub created : ℕ
  pub expire : Option ℕ
  pub index : ℕ

-- `self.__data`, in insertion order.
abbrev pub Data : Type 0
Data = List (Text × Value)

-- `get(key)`
unfoldable pub lookup : Data → Text → Option Value
lookup [] key = none
lookup ((k, v) ∷ d) key = if text_eq k key then some v else lookup d key

-- `self.__data[key] = value`
unfoldable pub put : Data → Text → Value → Data
put [] key value = (key, value) ∷ []
put ((k, v) ∷ d) key value =
    let rest = (k, v) ∷ put d key value in if text_eq k key then (k, value) ∷ d else rest

-- `self.__data.pop(key)`
unfoldable pub remove : Data → Text → Data
remove d key = select (λ entry. not (text_eq entry.0 key)) d

-- `get(key, recursive=True)`
unfoldable pub get_recursive : Data → Text → Data
get_recursive d key = select (λ entry. starts_with key entry.0) d

-- The keyword arguments `prevExist`, `prevValue` and `prevIndex`.
pub record Requirements : Type 0 where
  pub prev_exist : Option Bool
  pub prev_value : Option Text
  pub prev_index : Option ℕ

abbrev same_bool : Bool → Bool → Bool
same_bool true b = b
same_bool false b = not b

exists_as : Option Bool → Option Value → Bool
exists_as none old = true
exists_as (some b) none = same_bool b false
exists_as (some b) (some v) = same_bool b true

has_value : Option Text → Option Value → Bool
has_value none old = true
has_value (some t) none = false
has_value (some t) (some v) = text_eq v.value t

has_index : Option ℕ → Option Value → Bool
has_index none old = true
has_index (some i) none = false
has_index (some i) (some v) = v.index == i

-- `__check_requirements`
unfoldable pub check_requirements : Option Value → Requirements → Bool
unfolding exists_as has_value has_index
check_requirements old r =
    exists_as r.prev_exist old && has_value r.prev_value old && has_index r.prev_index old

abbrev opt_eq_time : Option ℕ → Option ℕ → Bool
opt_eq_time none none = true
opt_eq_time (some a) (some b) = a == b
opt_eq_time _ _ = false

-- `__values_match`
unfoldable pub values_match : Value → Value → Bool
values_match old new =
    old.created == new.created
    && old.updated == new.updated
    && opt_eq_time old.expire new.expire
    && text_eq old.value new.value

-- The replicated methods `_set`, `_delete` and `_expire`, with their arguments.
pub data Command : Type 0 where
  set : Text → Value → Requirements → Command
  delete : Text → Bool → Requirements → Command
  expire : Text → Value → Command

-- What a replicated method returns; `key_error` is raised.
pub data Reply : Type 0 where
  stored : Value → Reply
  refused deleted key_error nothing : Reply

-- A call of `on_set` or `on_delete`.
pub data Event : Type 0 where
  was_set : Text → Value → Event
  was_deleted : Text → Event

-- A value of another session gets a new `created`.
unfoldable pub renew : Option Value → Value → Value
renew none value = value
renew (some old) value =
    if not (old.created == value.created) then record value { created = value.updated } else value

-- `_set`, at the log position `raftLastApplied`.
unfoldable pub apply_set : ℕ → Data → Text → Value → Requirements → Reply × Data × List Event
unfolding renew
apply_set applied d key value r =
    if not (check_requirements (lookup d key) r)
    then (refused, d, [])
    else let v : Value = record (renew (lookup d key) value) { index = applied + 1 } in
      (stored v, put d key v, was_set key v ∷ [])

pop_key : Data → Text → Option Value → Reply × Data × List Event
pop_key d key none = (key_error, d, [])
pop_key d key (some v) = (deleted, remove d key, was_deleted key ∷ [])

-- `_delete`
unfoldable pub apply_delete : Data → Text → Bool → Requirements → Reply × Data × List Event
unfolding pop_key
apply_delete d key true r = (
  deleted,
  select (λ entry. not (starts_with key entry.0)) d,
  map (λ entry. was_deleted entry.0) (get_recursive d key),
)
apply_delete d key false r =
    if not (check_requirements (lookup d key) r)
    then (refused, d, [])
    else pop_key d key (lookup d key)

expire_current : Data → Text → Value → Option Value → Reply × Data × List Event
expire_current d key value none = (nothing, d, [])
expire_current d key value (some current) =
    if values_match current value
    then (nothing, remove d key, was_deleted key ∷ [])
    else (nothing, d, [])

-- `_expire`
unfoldable pub apply_expire : Data → Text → Value → Reply × Data × List Event
unfolding expire_current
apply_expire d key value = expire_current d key value (lookup d key)

unfoldable pub apply : ℕ → Data → Command → Reply × Data × List Event
apply applied d (set key value r) = apply_set applied d key value r
apply applied d (delete key recursive r) = apply_delete d key recursive r
apply applied d (expire key value) = apply_expire d key value

-- The log is applied in order; each command takes one position.
unfoldable pub run : ℕ → Data → List Command → Data
run applied d [] = d
run applied d (c ∷ cs) = run (suc applied) (apply applied d c).1 cs

created_at : Option Value → ℕ → ℕ
created_at none now = now
created_at (some old) now = old.created

-- The command that `set` sends, `none` where it returns `False` at once.
unfoldable pub propose_set : ℕ → Data → Text → Text → Option ℕ → Requirements → Option Command
unfolding created_at
propose_set now d key value ttl r =
    if not (check_requirements (lookup d key) r)
    then none
    else some (
        set key
          (record {
            value = value;
            updated = now;
            created = created_at (lookup d key) now;
            expire = until ttl;
            index = 0;
          })
          r)
  where
    until : Option ℕ → Option ℕ
    until (some (suc t)) = some (now + suc t)
    until _ = none

-- The command that `delete` sends.
unfoldable pub propose_delete : Data → Text → Bool → Requirements → Option Command
propose_delete d key recursive r =
    if not recursive && not (check_requirements (lookup d key) r)
    then none
    else some (delete key recursive r)
