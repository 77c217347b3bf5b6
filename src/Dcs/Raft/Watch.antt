-- ===== src/Dcs/Raft/Watch.antt =====
-- `_on_set` and `_on_delete` of patroni/dcs/raft.py: which changes wake the HA loop.
use patroni.Base.{
  ℕ, Bool, false, not, ◌&&◌, ◌||◌, Option, none, some, [], ◌∷◌, Text, text_eq, text_mem,
  starts_with, ◌==◌,
}
use patroni.Dcs.Raft.{Value, Data, lookup}

-- The paths of the keys, and this node's name.
pub record Paths : Type 0 where
  pub members_path : Text
  pub leader_path : Text
  pub leader_optime_path : Text
  pub status_path : Text
  pub config_path : Text
  pub sync_path : Text

-- `key == created`: a `str` and a `float` are never equal.
abbrev key_is_time : Text → ℕ → Bool
key_is_time key time = false

leader_is : Text → Option Value → Bool
leader_is name none = false
leader_is name (some v) = text_eq v.value name

-- `_on_set`: whether it sets the event.
unfoldable pub on_set : Paths → Text → Data → Text → Value → Bool
unfolding leader_is
on_set p name d key v =
    let mine = leader_is name (lookup d p.leader_path) in
    (key_is_time key v.created
      && v.created == v.updated
      && (starts_with p.members_path key || text_eq key p.leader_path && not mine))
    || text_mem key (p.leader_optime_path ∷ p.status_path ∷ []) && not mine
    || text_mem key (p.config_path ∷ p.sync_path ∷ [])

-- `_on_delete`
unfoldable pub on_delete : Paths → Text → Bool
on_delete p key = text_eq key p.leader_path
