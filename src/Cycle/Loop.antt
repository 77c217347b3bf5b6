-- ===== src/Cycle/Loop.antt =====
-- The HA loop: cycles of `run_cycle` (patroni/ha.py), and between them the threads of the executor.
use patroni.Base.{Bool, Option, none, some, List, [], ◌≡◌, foldl}
use patroni.Async.{complete_task}
use patroni.Cycle.Exec.{modify, finally}
use patroni.Cycle.Node.{Role, PostgresState, Mode, Node, World, M}
use patroni.Cycle.Demote.{demote}
use patroni.Cycle.Run.{run_cycle}

unfoldable pub reset_scheduled_action : M (Unit {0})
reset_scheduled_action = modify (λ s. record s { scheduled_action = none })

-- The executor's thread ran `demote`, as `AsyncExecutor.run` does.
unfoldable pub run_demote : World → Mode → M (Unit {0})
run_demote w mode = finally (demote w mode) reset_scheduled_action

-- The executor's thread ran another action: PostgreSQL has another role and state, and
-- `_async_response` may have a result.
unfoldable pub finish_action : Role → PostgresState → Option Bool → Node → Node
finish_action role state none s = record s { scheduled_action = none; role = role; state = state }
finish_action role state (some b) s = record s {
  scheduled_action = none;
  role = role;
  state = state;
  async_response = complete_task b s.async_response;
}

-- A cycle, a demotion in the executor's thread, or the end of another action there. In each the
-- world outside may be another.
pub data Turn : Type 0 where
  cycle : World → Turn
  demotion : World → Mode → Turn
  finished : Role → PostgresState → Option Bool → Turn

unfoldable pub take_turn : Node → Turn → Node
take_turn s (cycle w) = (run_cycle w s).1
take_turn s (demotion w mode) = (run_demote w mode s).1
take_turn s (finished role state result) = finish_action role state result s

unfoldable pub loop : List Turn → Node → Node
loop turns s = foldl take_turn s turns

-- A node that did nothing yet.
pub record IsNew (s : Node) : Type 0 where
  pub no_history : s.history ≡ []
  pub no_key : s.leader_expiry ≡ 0
