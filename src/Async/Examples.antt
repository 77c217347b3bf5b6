-- ===== src/Async/Examples.antt =====
-- Runs of patroni/async_executor.py, and the theorems at them.
use patroni.Base.{◌+◌, ◌≡◌, refl, true, false, none, some, List, [], ◌∷◌, ◌++◌, Text, codes}
use patroni.Async.{
  fresh_task, cancel_task, complete_task, schedule, start_run, request_cancel, System, init_system,
  Step, Steps,
}
use patroni.Async.Critical.{Call, main_cancels, thread_performs, calls, cancel_task-excludes}
use patroni.Async.Exclusion.{busy, AllQuiet, one_run_at_a_time}

-- The main thread cancels before the background thread performs.
abbrev early : List (Call Text)
early = main_cancels ∷ thread_performs (codes "promoted") ∷ []

early_is_cancelled : (calls fresh_task early).is_cancelled ≡ true
unfolding cancel_task complete_task
early_is_cancelled = refl

cancel_task-excludes_example : (calls fresh_task early).result ≡ none
cancel_task-excludes_example = cancel_task-excludes early early_is_cancelled

abbrev scheduled : Text → System → System
scheduled action s = record s {
  executor = (schedule action s.executor).1;
  queued = s.queued ++ action ∷ [];
}

abbrev started : System
started = record (scheduled (codes "restart") init_system) {
  executor = (start_run (scheduled (codes "restart") init_system).executor).1;
  queued = [];
  running = codes "restart" ∷ [];
}

restart_started : Steps init_system started
unfolding schedule start_run
restart_started = Steps.step (Step.try_run (codes "restart") init_system refl refl) (
    Steps.step
      (Step.start (codes "restart") (scheduled (codes "restart") init_system) [] [] refl refl)
      (Steps.done started))

restart_started-AllQuiet : AllQuiet restart_started
unfolding restart_started
restart_started-AllQuiet = (refl, (refl, tt))

one_run_at_a_time_example : 0 + 1 ≡ busy (some (codes "restart"))
unfolding schedule start_run
one_run_at_a_time_example = one_run_at_a_time restart_started restart_started-AllQuiet

-- With `cancel`: it returns before a run that is submitted has started; the next `schedule` takes the
-- flag back, and then both runs start.
abbrev after_cancel : System
after_cancel = record init_system {
  executor = record {
    scheduled_action = none;
    is_cancelled = true;
    finish_event = true;
    critical_task = fresh_task;
  };
  queued = codes "restart" ∷ [];
}

abbrev both : System
both = record init_system {
  executor = record {
    scheduled_action = some (codes "reinitialize");
    is_cancelled = false;
    finish_event = false;
    critical_task = fresh_task;
  };
  running = codes "reinitialize" ∷ codes "restart" ∷ [];
}

both_run : Steps init_system both
unfolding schedule start_run request_cancel
both_run = Steps.step (Step.try_run (codes "restart") init_system refl refl) (
    Steps.step (Step.cancel _ refl refl) (
      Steps.step (Step.cancelled _ refl refl) (
        Steps.step (Step.try_run (codes "reinitialize") after_cancel refl refl) (
          Steps.step (Step.start (codes "restart") _ [] (codes "reinitialize" ∷ []) refl refl)
            (Steps.step (Step.start (codes "reinitialize") _ [] [] refl refl) (Steps.done both))))))
