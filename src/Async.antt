-- ===== src/Async.antt =====
-- patroni/async_executor.py: tasks that run beside the HA loop.
pub mod Critical
pub mod Exclusion
mod Examples
use patroni.Base.{
  ◌≡◌, Bool, true, false, not, Option, none, some, List, [], ◌∷◌, ◌++◌, Text, if◌then◌else◌,
}

-- `CriticalTask`
pub record CriticalTask (A : Type 0) : Type 0 where
  pub is_cancelled : Bool
  pub result : Option A

module _ {A : Type 0} where
  -- `__init__`, and `reset`
  abbrev pub fresh_task : CriticalTask A
  fresh_task = record { is_cancelled = false; result = none }

  cancel_over : CriticalTask A → Option A → Bool × CriticalTask A
  cancel_over t (some a) = (false, t)
  cancel_over t none = (true, record t { is_cancelled = true })

  -- `cancel`
  unfoldable pub cancel_task : CriticalTask A → Bool × CriticalTask A
  unfolding cancel_over
  cancel_task t = cancel_over t t.result

  -- `complete`
  unfoldable pub complete_task : A → CriticalTask A → CriticalTask A
  complete_task a t = record t { result = some a }

-- `AsyncExecutor`: the attributes that its methods share.
pub record AsyncExecutor : Type 0 where
  pub scheduled_action : Option Text
  pub is_cancelled : Bool
  pub finish_event : Bool
  pub critical_task : CriticalTask Text

abbrev pub init_executor : AsyncExecutor
init_executor = record {
  scheduled_action = none;
  is_cancelled = false;
  finish_event = false;
  critical_task = fresh_task;
}

schedule_over : Text → AsyncExecutor → Option Text → Option Text × AsyncExecutor
schedule_over action e (some previous) = (some previous, e)
schedule_over action e none =
    (none, record e { scheduled_action = some action; is_cancelled = false; finish_event = true })

-- `schedule`: the action that is already scheduled, if there is one.
unfoldable pub schedule : Text → AsyncExecutor → Option Text × AsyncExecutor
unfolding schedule_over
schedule action e = schedule_over action e e.scheduled_action

-- `reset_scheduled_action`
abbrev pub reset_scheduled_action : AsyncExecutor → AsyncExecutor
reset_scheduled_action e = record e { scheduled_action = none }

-- The first block of `run`, under the lock: whether the function is called.
unfoldable pub start_run : AsyncExecutor → Bool × AsyncExecutor
start_run e = if e.is_cancelled then (false, e) else (true, record e { finish_event = false })

-- The `finally` block of `run`.
unfoldable pub finish_run : AsyncExecutor → AsyncExecutor
finish_run e = record e { scheduled_action = none; finish_event = true; critical_task = fresh_task }

start_cancel : AsyncExecutor → Option Text → Bool × AsyncExecutor
start_cancel e none = (false, e)
start_cancel e (some action) = (true, record e { is_cancelled = true })

-- The first block of `cancel`: whether it goes on.
unfoldable pub request_cancel : AsyncExecutor → Bool × AsyncExecutor
unfolding start_cancel
request_cancel e = start_cancel e e.scheduled_action

-- The threads: runs that are submitted, runs whose function was called, and whether the main thread
-- waits in `cancel`.
pub record System : Type 0 where
  pub executor : AsyncExecutor
  pub queued : List Text
  pub running : List Text
  pub waiting : Bool

abbrev pub init_system : System
init_system = record { executor = init_executor; queued = []; running = []; waiting = false }

-- One step of a thread. The main thread does not schedule while it waits.
pub data Step : System → System → Type 0 where
  -- `try_run_async` of an action.
  try_run :
      (action : Text) (s : System)
      → s.waiting ≡ false
      → (schedule action s.executor).0 ≡ none
      → Step s
          (record s { executor = (schedule action s.executor).1; queued = s.queued ++ action ∷ [] })
  -- A submitted run takes the lock, and calls its function.
  start :
      (action : Text) (s : System) (before after : List Text)
      → s.queued ≡ before ++ action ∷ after
      → (start_run s.executor).0 ≡ true
      → Step s (record s {
        executor = (start_run s.executor).1;
        queued = before ++ after;
        running = action ∷ s.running;
      })
  -- It was cancelled: the run ends at once.
  skip :
      (action : Text) (s : System) (before after : List Text)
      → s.queued ≡ before ++ action ∷ after
      → (start_run s.executor).0 ≡ false
      → Step s (record s { executor = finish_run s.executor; queued = before ++ after })
  -- A function returns, or raises.
  finish :
      (action : Text) (s : System) (before after : List Text)
      → s.running ≡ before ++ action ∷ after
      → Step s (record s { executor = finish_run s.executor; running = before ++ after })
  -- `cancel` is called, and waits.
  cancel :
      (s : System)
      → s.waiting ≡ false
      → (request_cancel s.executor).0 ≡ true
      → Step s (record s { executor = (request_cancel s.executor).1; waiting = true })
  -- The event is set: `cancel` returns.
  cancelled :
      (s : System)
      → s.waiting ≡ true
      → s.executor.finish_event ≡ true
      → Step s (record s { executor = reset_scheduled_action s.executor; waiting = false })

-- The steps one after another.
pub data Steps : System → System → Type 0 where
  done : (s : System) → Steps s s
  step : {s t u : System} → Step s t → Steps t u → Steps s u
