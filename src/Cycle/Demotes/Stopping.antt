-- ===== src/Cycle/Demotes/Stopping.antt =====
-- `process_healthy_cluster`, `process_unhealthy_cluster` and `_handle_dcs_error` of patroni/ha.py, out
-- of pause.
use patroni.Base.{not, ◌&&◌, ◌||◌, List, [], ◌∷◌, Bool, true, false}
use patroni.Cycle.Node.{Event, Node}
use patroni.Cycle.Safety.{quiet}

-- In this cycle, the last of these: the DCS answered that the leader key was acquired or updated; the
-- stop of PostgreSQL was ordered; PostgreSQL answered that it does not run or is no primary; all members
-- of the failsafe topology accepted this node; the key was deleted, out of pause and while `quiet`. It
-- was not an answer that the key could not be had, nor another deletion of the key.
unfoldable pub secured : List Event → Bool
secured [] = false
secured (Event.cycle_started ∷ past) = false
secured (Event.acquire_leader_lock b ∷ past) = b
secured (Event.update_leader b ∷ past) = b
secured (Event.stop mode ∷ past) = true
secured (Event.is_primary b ∷ past) = not b || secured past
secured (Event.is_running b ∷ past) = not b || secured past
secured (Event.failsafe_accepted ∷ past) = true
secured (Event.delete_leader paused ∷ past) = not paused && quiet past
secured (_ ∷ past) = secured past
