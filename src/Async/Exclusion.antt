-- ===== src/Async/Exclusion.antt =====
-- One run at a time: `AsyncExecutor` of patroni/async_executor.py.
use patroni.Base.{
  ℕ, suc, ◌+◌, ◌≤◌, ◌≡◌, refl, ap, Bool, true, false, Option, none, some, List, [], ◌∷◌, ◌++◌, Text,
  length, length-append, arith,
}
use patroni.Async.{
  AsyncExecutor, schedule_over, schedule, start_run, finish_run, System, init_system, Step, Steps,
}

-- Nobody calls `cancel`.
abbrev pub is_quiet : {s t : System} → Step s t → Bool
is_quiet (Step.cancel s w r) = false
is_quiet _ = true

abbrev pub AllQuiet : {s t : System} → Steps s t → Type 0
AllQuiet (Steps.done s) = Unit {0}
AllQuiet (Steps.step x xs) = (is_quiet x ≡ true) × AllQuiet xs

abbrev pub busy : Option Text → ℕ
busy none = 0
busy (some _) = 1

-- As many runs are submitted or running as actions are scheduled.
record IsAlone (s : System) : Type 0 where
  calm : s.waiting ≡ false
  wanted : s.executor.is_cancelled ≡ false
  count : length s.queued + length s.running ≡ busy s.executor.scheduled_action

length_split :
    (xs before after : List Text) (x : Text)
    → xs ≡ before ++ x ∷ after
    → length xs ≡ suc (length (before ++ after))
length_split xs before after x h =
    rw h (omega (arith, length-append before (x ∷ after), length-append before after))

busy-le : (o : Option Text) → busy o ≤ 1
busy-le none = omega arith
busy-le (some a) = omega arith

over_frees :
    (action : Text) (e : AsyncExecutor) (o : Option Text)
    → (schedule_over action e o).0 ≡ none
    → (busy o ≡ 0)
      × (busy (schedule_over action e o).1.scheduled_action ≡ 1)
      × ((schedule_over action e o).1.is_cancelled ≡ false)
unfolding schedule_over
over_frees action e none h = (refl, refl, refl)
over_frees action e (some a) h = cc

schedule_frees :
    (action : Text) (e : AsyncExecutor)
    → (schedule action e).0 ≡ none
    → (busy e.scheduled_action ≡ 0)
      × (busy (schedule action e).1.scheduled_action ≡ 1)
      × ((schedule action e).1.is_cancelled ≡ false)
unfolding schedule
schedule_frees action e h = over_frees action e e.scheduled_action h

start_runs :
    (e : AsyncExecutor)
    → e.is_cancelled ≡ false
    → ((start_run e).0 ≡ true)
      × ((start_run e).1.is_cancelled ≡ false)
      × ((start_run e).1.scheduled_action ≡ e.scheduled_action)
unfolding start_run
start_runs e h = (ground arith, ground arith, ground arith)

step-IsAlone : {s t : System} (x : Step s t) → is_quiet x ≡ true → IsAlone s → IsAlone t
unfolding finish_run
step-IsAlone (Step.try_run action s w h) q i =
    let (free, taken, kept) = schedule_frees action s.executor h in
    record {
      calm = w;
      wanted = kept;
      count = omega (arith, free, taken, i.count, length-append s.queued (action ∷ []));
    }
step-IsAlone (Step.start action s before after at h) q i =
    let (_, kept, same) = start_runs s.executor i.wanted in
    record {
      calm = i.calm;
      wanted = kept;
      count = omega (arith, i.count, length_split s.queued before after action at, ap busy same);
    }
step-IsAlone (Step.skip action s before after at h) q i =
    let (runs, _, _) = start_runs s.executor i.wanted in cc
step-IsAlone (Step.finish action s before after at) q i = record {
  calm = i.calm;
  wanted = i.wanted;
  count = omega (
    arith,
    i.count,
    length_split s.running before after action at,
    busy-le s.executor.scheduled_action,
  );
}
step-IsAlone (Step.cancel s w r) q i = cc
step-IsAlone (Step.cancelled s w e) q i = cc

steps-IsAlone : {s t : System} (xs : Steps s t) → AllQuiet xs → IsAlone s → IsAlone t
steps-IsAlone (Steps.done s) q i = i
steps-IsAlone (Steps.step x xs) q i = steps-IsAlone xs q.1 (step-IsAlone x q.0 i)

-- As long as nobody calls `cancel`, at most one run is submitted or running at any time, and none
-- where no action is scheduled.
pub one_run_at_a_time :
    {t : System} (xs : Steps init_system t)
    → AllQuiet xs
    → length t.queued + length t.running ≡ busy t.executor.scheduled_action
one_run_at_a_time xs q =
    (steps-IsAlone xs q (record { calm = refl; wanted = refl; count = refl })).count
