-- ===== src/Async/Critical.antt =====
-- The promise of `CriticalTask` in patroni/async_executor.py.
use patroni.Base.{
  ◌≡◌, refl, true, Option, none, some, List, [], ◌∷◌, if◌then◌else◌, Bool-cases, inl, inr,
}
use patroni.Async.{CriticalTask, cancel_over, fresh_task, cancel_task, complete_task}

-- A call under the task's lock: the main thread cancels, or the background thread looks at the flag
-- and, unless it is set, runs the task and completes it.
pub data Call (A : Type 0) : Type 0 where
  main_cancels : Call A
  thread_performs : A → Call A

module _ {A : Type 0} where
  abbrev perform : A → CriticalTask A → CriticalTask A
  perform a t = if t.is_cancelled then t else complete_task a t

  abbrev pub call : CriticalTask A → Call A → CriticalTask A
  call t main_cancels = (cancel_task t).1
  call t (thread_performs a) = perform a t

  abbrev pub calls : CriticalTask A → List (Call A) → CriticalTask A
  calls t [] = t
  calls t (c ∷ cs) = calls (call t c) cs

  -- The task is not cancelled, or it has no result.
  abbrev pub IsExclusive : CriticalTask A → Type 0
  IsExclusive t = t.is_cancelled ≡ true → t.result ≡ none

  cancel_over-IsExclusive :
      (t : CriticalTask A) (o : Option A)
      → t.result ≡ o
      → IsExclusive t
      → IsExclusive (cancel_over t o).1
  unfolding cancel_over
  cancel_over-IsExclusive t none e h = λ c. e
  cancel_over-IsExclusive t (some a) e h = h

  cancel_task-IsExclusive : (t : CriticalTask A) → IsExclusive t → IsExclusive (cancel_task t).1
  unfolding cancel_task
  cancel_task-IsExclusive t h = cancel_over-IsExclusive t t.result refl h

  perform-IsExclusive : (a : A) (t : CriticalTask A) → IsExclusive t → IsExclusive (perform a t)
  unfolding complete_task
  perform-IsExclusive a t h = elim (Bool-cases t.is_cancelled) [
    | inl e ↦ rw e (λ c. h e)
    | inr e ↦ rw e (λ c. cc)
  ]

  call-IsExclusive : (t : CriticalTask A) (c : Call A) → IsExclusive t → IsExclusive (call t c)
  call-IsExclusive t main_cancels h = cancel_task-IsExclusive t h
  call-IsExclusive t (thread_performs a) h = perform-IsExclusive a t h

  calls-IsExclusive :
      (t : CriticalTask A) (cs : List (Call A)) → IsExclusive t → IsExclusive (calls t cs)
  calls-IsExclusive t [] h = h
  calls-IsExclusive t (c ∷ cs) h = calls-IsExclusive (call t c) cs (call-IsExclusive t c h)

-- In whatever order the main thread cancels and the background thread performs: a task that was
-- cancelled has no result, so that it is either cancelled or run.
pub cancel_task-excludes :
    {A : Type 0} (cs : List (Call A))
    → (calls fresh_task cs).is_cancelled ≡ true
    → (calls fresh_task cs).result ≡ none
cancel_task-excludes cs = calls-IsExclusive fresh_task cs (λ c. refl)
