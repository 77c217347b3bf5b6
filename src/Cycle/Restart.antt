-- ===== src/Cycle/Restart.antt =====
-- Scheduled restarts in patroni/ha.py: `evaluate_scheduled_restart`, `restart`,
-- `delete_future_restart`.
use patroni.Base.{ℕ, Bool, true, false, not, ◌&&◌, Option, none, some, ltb, ◌==◌, if◌then◌else◌}
use patroni.Cycle.Exec.{pure, gets, modify, finally, ◌>>=◌, ◌>>◌}
use patroni.Cycle.Node.{
  Action, Message, Restart, Question, Reading, World, M, ask, read, when, try_run_async,
}
use patroni.Cycle.Lock.{touch_member}
use patroni.Cycle.Primary.{should_run_scheduled_action}
use patroni.Cycle.Startup.{set_start_timeout}

unfoldable pub delete_future_restart : World → M (Unit {0})
delete_future_restart w = do
  set ← gets (λ s. elim s.scheduled_restart [ none ↦ false | some _ ↦ true ])
  when set (do modify (λ s. record s { scheduled_restart = none }); touch_member w; pure tt)

-- The restart is submitted; the cycle takes it for a recovery of a dead server.
unfoldable pub initiate_restart : World → Restart → Option Action → M (Option Message)
initiate_restart w restart_data (some previous) = pure none
initiate_restart w restart_data none = do
  modify (λ s. record s { recovering = true })
  set_start_timeout
      (some (elim restart_data.timeout [ none ↦ w.settings.primary_start_timeout | some t ↦ t ]))
  pure (some (Message.started Action.restart))

-- `restart(restart_data, run_async=True)`: the message, if it was initiated.
unfoldable pub restart : World → Restart → M (Option Message)
restart w restart_data = do
  matches ← ask w Question.restart_matches
  if not matches
      then pure none
      else (do previous ← try_run_async Action.restart; initiate_restart w restart_data previous)

-- PostgreSQL was restarted since the restart was scheduled.
unfoldable pub has_happened : ℕ → Restart → Bool
has_happened recent_time restart_data =
    ltb 0 recent_time
    && ltb 0 restart_data.postmaster_start_time
    && not (recent_time == restart_data.postmaster_start_time)

unfoldable pub restart_when_due : World → Restart → M (Option Message)
restart_when_due w restart_data = do
  due ← should_run_scheduled_action w restart_data.schedule (delete_future_restart w)
  if due then finally (restart w restart_data) (delete_future_restart w) else pure none

unfoldable pub evaluate_restart : World → Option Restart → M (Option Message)
evaluate_restart w none = pure none
evaluate_restart w (some restart_data) = do
  recent_time ← read w Reading.postmaster_start_time
  if has_happened recent_time restart_data
      then (do delete_future_restart w; pure none)
      else restart_when_due w restart_data

unfoldable pub evaluate_scheduled_restart : World → M (Option Message)
evaluate_scheduled_restart w = do
  busy ← gets (λ s. elim s.scheduled_action [ none ↦ false | some _ ↦ true ])
  scheduled ← gets (λ s. s.scheduled_restart)
  if busy then pure none else evaluate_restart w scheduled
