-- ===== src/Cycle/Demotes/Confirming.antt =====
-- About the answers of the DCS on the leader key in patroni/ha.py, by `update_lock` and `acquire_lock`.
use patroni.Base.{◌≡◌, Bool, true, false, not, ◌||◌, arith}
use patroni.Ha.State.{Config}
use patroni.Cycle.Exec.{Error, Result, ok, err, pure, modify, continue, ◌>>=◌, ◌>>◌}
use patroni.Cycle.Node.{Call, Event, Node, World, M, log, perform, when}
use patroni.Cycle.Lock.{answered, update_lock, acquire_lock, set_is_leader}
use patroni.Cycle.Demotes.{Ready, Stays, Ends, Settled, settled, Settled-Ready}
use patroni.Cycle.Demotes.Calls.{building, call-Stays, set_is_leader-Stays, remember_position-Stays}

-- After an answer about the key: it is confirmed by `true`.
abbrev Confirmed : Config → Result Bool → Node → Type 0
Confirmed c (ok b) s = Ready c b s
Confirmed c (err e) s = Unit {0}

record Confirms (c : Config) (m : M Bool) : Type 0 where
  at : (s : Node) → Ready c false s → Confirmed c (m s).0 (m s).1

module _ {c : Config} where
  Ends-confirmed :
      {B : Type 0} (r : Result Bool) (f : Bool → M B)
      → Stays (f true)
      → Ends c (f false)
      → (s : Node) → Confirmed c r s
      → Settled c (continue r f s).0 (continue r f s).1
  Ends-confirmed (ok true) f kt kf s v = Settled-Ready _ _ (kt.at c true s v)
  Ends-confirmed (ok false) f kt kf s v = kf.at s v
  Ends-confirmed (err e) f kt kf s v = tt

  Ends-confirm :
      {B : Type 0} (m : M Bool) (f : Bool → M B)
      → Confirms c m
      → Stays (f true)
      → Ends c (f false)
      → Ends c (m >>= f)
  unfolding ◌>>=◌
  Ends-confirm m f km kt kf = record {
    at = λ s v. let (r, s') = m s in Ends-confirmed r f kt kf s' (km.at s v);
  }

  Confirmed-continue :
      {A : Type 0} (r : Result A) (f : A → M Bool)
      → ((a : A) → Confirms c (f a))
      → (s : Node) → Ready c false s
      → Confirmed c (continue r f s).0 (continue r f s).1
  Confirmed-continue (ok a) f k s v = (k a).at s v
  Confirmed-continue (err e) f k s v = tt

  Confirms-bind :
      {A : Type 0} (m : M A) (f : A → M Bool)
      → Stays m
      → ((a : A) → Confirms c (f a))
      → Confirms c (m >>= f)
  unfolding ◌>>=◌
  Confirms-bind m f km kf = record {
    at = λ s v. let (r, s') = m s in Confirmed-continue r f kf s' (km.at c false s v);
  }

-- What follows the answer keeps it.
record Answers (c : Config) (ret : Bool) (m : M Bool) : Type 0 where
  at : (s : Node) → Ready c ret s → Confirmed c (m s).0 (m s).1

module _ {c : Config} {ret : Bool} where
  Answers-pure : Answers c ret (pure ret)
  unfolding pure
  Answers-pure = record { at = λ s v. v }

  Answers-continue :
      {A : Type 0} (r : Result A) (f : A → M Bool)
      → ((a : A) → Answers c ret (f a))
      → (s : Node) → Ready c ret s
      → Confirmed c (continue r f s).0 (continue r f s).1
  Answers-continue (ok a) f k s v = (k a).at s v
  Answers-continue (err e) f k s v = tt

  Answers-bind :
      {A : Type 0} (m : M A) (f : A → M Bool)
      → Stays m
      → ((a : A) → Answers c ret (f a))
      → Answers c ret (m >>= f)
  unfolding ◌>>=◌
  Answers-bind m f km kf = record {
    at = λ s v. let (r, s') = m s in Answers-continue r f kf s' (km.at c ret s v);
  }

answered-Stays : (r : Result Bool) → Stays (answered r)
unfolding answered
answered-Stays (ok b) = search building
answered-Stays (err Error.dcs_error) = search building
answered-Stays (err Error.exit) = search building
answered-Stays (err _) = search building

confirmed_done : (ret : Bool) → (not ret || ret) ≡ true
confirmed_done ret = ground arith

module _ (w : World) {c : Config} where
  settle_update :
      (ret : Bool)
      → Confirms c (
          log (Event.update_leader ret)
          >> (set_is_leader w ret
              >> (when ret (perform w (Event.call Call.watchdog_keepalive)) >> pure ret)))
  unfolding log modify settled ◌>>=◌
  settle_update ret = record {
    at = λ s v.
        let k : Answers c ret (
            set_is_leader w ret
            >> (when ret (perform w (Event.call Call.watchdog_keepalive)) >> pure ret)) =
          search (building, Answers-bind, Answers-pure, set_is_leader-Stays, call-Stays) in
        k.at _ (record { unpaused = v.unpaused; same = v.same; done = confirmed_done ret });
  }

  settle_acquire :
      (ret : Bool)
      → Confirms c (log (Event.acquire_leader_lock ret) >> (set_is_leader w ret >> pure ret))
  unfolding log modify settled ◌>>=◌
  settle_acquire ret = record {
    at = λ s v.
        let k : Answers c ret (set_is_leader w ret >> pure ret) =
          search (building, Answers-bind, Answers-pure, set_is_leader-Stays) in
        k.at _ (record { unpaused = v.unpaused; same = v.same; done = confirmed_done ret });
  }

  update_lock-Confirms : (b : Bool) → Confirms c (update_lock w b)
  unfolding update_lock
  update_lock-Confirms b =
      search (building, Confirms-bind, remember_position-Stays, answered-Stays, settle_update) depth
        12

  acquire_lock-Confirms : Confirms c (acquire_lock w)
  unfolding acquire_lock
  acquire_lock-Confirms = search (building, Confirms-bind, answered-Stays, settle_acquire) depth 12

  -- The key is confirmed, or the cycle is settled otherwise.
  pub Ends-update :
      {B : Type 0} (b : Bool) (f : Bool → M B)
      → Stays (f true)
      → Ends c (f false)
      → Ends c (update_lock w b >>= f)
  Ends-update b f = Ends-confirm _ f (update_lock-Confirms b)

  pub Ends-acquire :
      {B : Type 0} (f : Bool → M B)
      → Stays (f true)
      → Ends c (f false)
      → Ends c (acquire_lock w >>= f)
  Ends-acquire f = Ends-confirm _ f acquire_lock-Confirms
