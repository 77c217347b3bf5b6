-- ===== src/Dcs/SyncState.antt =====
-- `SyncState` of patroni/dcs/__init__.py, the `/sync` key.
pub mod Laws
mod Examples
use patroni.Base.{
  ℕ, ◌≡◌, refl, ap, ◌∙◌, Bool, true, false, not, ◌&&◌, ◌||◌, Option, none, some, List, [], ◌∷◌,
  ◌++◌, map, Text, codes, text_eq, lower, sorted, strip, split_on, join_on, text_mem, ℤ, pos, eqb_ℤ,
  null, select, if◌then◌else◌,
}

-- `bool(s)` of an optional string.
abbrev pub truthy : Option Text → Bool
truthy none = false
truthy (some s) = not (null s)

-- `s or ''`
abbrev pub or_empty : Option Text → Text
or_empty none = []
or_empty (some s) = s

pub record SyncState : Type 0 where
  pub version : Option ℕ
  pub leader : Option Text
  pub sync_standby : Option Text
  pub quorum : ℤ

-- The dictionary that is stored as JSON.
pub record SyncValue : Type 0 where
  pub leader : Option Text
  pub sync_standby : Option Text
  pub quorum : Option ℤ

abbrev pub empty : Option ℕ → SyncState
empty version = record { version = version; leader = none; sync_standby = none; quorum = pos 0 }

-- `int(quorum) if leader and quorum else 0`
abbrev pub quorum_of : Option Text → Option ℤ → ℤ
quorum_of leader none = pos 0
quorum_of leader (some q) = if truthy leader && not (eqb_ℤ q (pos 0)) then q else pos 0

-- The value is `none` where it is no JSON text of a dictionary.
unfoldable pub from_node : Option ℕ → Option SyncValue → SyncState
from_node version none = empty version
from_node version (some v) = record {
  version = version;
  leader = v.leader;
  sync_standby = v.sync_standby;
  quorum = quorum_of v.leader v.quorum;
}

unfoldable pub is_empty : SyncState → Bool
is_empty s = not (truthy s.leader)

-- `_str_to_list`
unfoldable pub str_to_list : Text → List Text
str_to_list value = select (λ a. not (null a)) (map strip (split_on b',' value))

unfoldable pub voters : SyncState → List Text
unfolding is_empty
voters s =
    if not (is_empty s) && truthy s.sync_standby then str_to_list (or_empty s.sync_standby) else []

unfoldable pub members : SyncState → List Text
members s = if not (truthy s.leader) then [] else or_empty s.leader ∷ voters s

unfoldable pub matches : SyncState → Option Text → Bool → Bool
unfolding is_empty
matches s name check_leader =
    let leader = if check_leader then b',' ∷ or_empty s.leader else [] in
    if truthy name && not (is_empty s)
    then text_mem (lower (or_empty name)) (str_to_list (lower (or_empty s.sync_standby ++ leader)))
    else false

unfoldable pub leader_matches : SyncState → Option Text → Bool
unfolding is_empty
leader_matches s name =
    truthy name && not (is_empty s) && text_eq (lower (or_empty name)) (lower (or_empty s.leader))

-- `','.join(sorted(sync_standby)) if sync_standby else None`
unfoldable pub joined : Option (List Text) → Option Text
joined none = none
joined (some []) = none
joined (some (name ∷ names)) = some (join_on b',' (sorted (name ∷ names)))

-- `AbstractDCS.sync_state`
unfoldable pub sync_state : Option Text → Option (List Text) → Option ℤ → SyncValue
unfolding joined
sync_state leader sync_standby quorum = record {
  leader = leader;
  sync_standby = joined sync_standby;
  quorum = quorum;
}
