-- ===== src/Cycle/Safety.antt =====
-- What a node may do, by its history of patroni/ha.py's cycle: when PostgreSQL is promoted or started
-- as a primary, when the leader key is deleted, and when the node takes itself for the leader.
pub mod Rules
pub mod Primitives
pub mod Answers
pub mod Asking
pub mod Demotion
pub mod Following
pub mod Leading
pub mod Starting
pub mod Bootstrapping
pub mod Cycles
pub mod Looping
pub mod Running
use patroni.Base.{◌≡◌, ℕ, Bool, true, false, not, ◌&&◌, ◌||◌, List, [], ◌∷◌, ◌==◌}
use patroni.Cycle.Node.{Role, StopMode, Action, Call, Event, Node, M}

-- The actions that promote PostgreSQL, start it as a primary after a crash, or bootstrap it as one.
abbrev pub starts_primary : Action → Bool
starts_primary Action.promote = true
starts_primary Action.starting_primary = true
starts_primary Action.bootstrap = true
starts_primary _ = false

-- The last answer of the DCS about the leader key, in this cycle, is that this node has it.
unfoldable pub holds : List Event → Bool
holds [] = false
holds (Event.cycle_started ∷ past) = false
holds (Event.acquire_leader_lock b ∷ past) = b
holds (Event.update_leader b ∷ past) = b
holds (Event.delete_leader b ∷ past) = false
holds (_ ∷ past) = holds past

-- The last answer of the DCS about `/initialize`, in this cycle, is that this node won it.
unfoldable pub won : List Event → Bool
won [] = false
won (Event.cycle_started ∷ past) = false
won (Event.race_for_initialize b ∷ past) = b
won (_ ∷ past) = won past

-- What an action needs to be submitted: a promotion and a start as a primary the leader key, a
-- bootstrap the `/initialize` key.
unfoldable pub permits : Action → List Event → Bool
permits Action.promote past = holds past
permits Action.starting_primary past = holds past
permits Action.bootstrap past = won past
permits _ past = true

-- In this cycle the stop of PostgreSQL was ordered, or PostgreSQL answered that it is no primary or does
-- not run, or the pre-promote script failed; and it was not started since.
unfoldable pub quiet : List Event → Bool
quiet [] = false
quiet (Event.cycle_started ∷ past) = false
quiet (Event.is_primary b ∷ past) = not b
quiet (Event.is_running false ∷ past) = true
quiet (Event.pre_promote_failed ∷ past) = true
quiet (Event.stop mode ∷ past) = true
quiet (Event.follow role ∷ past) = false
quiet (Event.run action ∷ past) = false
quiet (_ ∷ past) = quiet past

-- The last of these: the DCS answered that this node has the leader key, the failsafe topology
-- accepted it, or `take_leader` was called, whose answer is not read.
unfoldable pub vouched : List Event → Bool
vouched [] = false
vouched (Event.acquire_leader_lock b ∷ past) = b
vouched (Event.update_leader b ∷ past) = b
vouched (Event.delete_leader b ∷ past) = false
vouched (Event.failsafe_accepted ∷ past) = true
vouched (Event.take_leader ∷ past) = true
vouched (_ ∷ past) = vouched past

-- Each action was submitted with the key that it needs.
unfoldable pub promotes_with_key : List Event → Bool
promotes_with_key [] = true
promotes_with_key (Event.run action ∷ past) = permits action past && promotes_with_key past
promotes_with_key (_ ∷ past) = promotes_with_key past

-- Each deletion of the leader key, out of pause, came while `quiet`.
unfoldable pub releases_quietly : List Event → Bool
releases_quietly [] = true
releases_quietly (Event.delete_leader paused ∷ past) =
    (paused || quiet past) && releases_quietly past
releases_quietly (_ ∷ past) = releases_quietly past

-- The invariant, while the node has the key (`h`) and is quiet (`q`).
pub record At (h q : Bool) (s : Node) : Type 0 where
  pub promotes : promotes_with_key s.history ≡ true
  pub releases : releases_quietly s.history ≡ true
  pub leads : (s.leader_expiry == 0 || vouched s.history) ≡ true
  pub key : (not h || holds s.history) ≡ true
  pub calm : (not q || quiet s.history) ≡ true

-- `m` keeps the invariant, the key and the calm, whether it returns or raises.
pub record Keeps {A : Type 0} (m : M A) : Type 0 where
  pub at : (h q : Bool) (s : Node) → At h q s → At h q (m s).1

-- `m` keeps the invariant and the key.
pub record KeepsKey {A : Type 0} (m : M A) : Type 0 where
  pub at : (h q : Bool) (s : Node) → At h q s → At h false (m s).1

-- From the invariant with the key or the calm, `m` goes to the invariant.
pub record Goes (h q : Bool) {A : Type 0} (m : M A) : Type 0 where
  pub at : (s : Node) → At h q s → At false false (m s).1
