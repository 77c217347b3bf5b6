-- ===== src/Cycle/Demotes.antt =====
-- What a cycle of patroni/ha.py must have done before it returns, as a statement about its history,
-- and the rules for each way to build an action.
pub mod Calls
pub mod Following
pub mod Promoting
pub mod Confirming
pub mod Losing
pub mod Racing
pub mod Stopping
use patroni.Base.{
  ◌≡◌, refl, Bool, true, false, not, ◌&&◌, ◌||◌, List, [], ◌∷◌, Option, none, some, arith,
  if◌then◌else◌,
}
use patroni.Ha.State.{Config, Ha}
use patroni.Cycle.Exec.{
  Error, Result, ok, err, pure, raise, gets, modify, continue, recover, catch, ◌>>=◌,
}
use patroni.Cycle.Node.{Call, Event, Node, World, M, next, log, lift, when}

-- In this cycle, the last of these: the DCS answered about the leader key, the stop of PostgreSQL was
-- ordered, PostgreSQL answered that it does not run or is no primary, all members of the failsafe
-- topology accepted this node. It was not an answer that the key is lost, and since then the key was
-- not deleted in pause.
unfoldable pub settled : List Event → Bool
settled [] = false
settled (Event.cycle_started ∷ past) = false
settled (Event.acquire_leader_lock b ∷ past) = b
settled (Event.update_leader b ∷ past) = b
settled (Event.stop mode ∷ past) = true
settled (Event.is_primary b ∷ past) = not b || settled past
settled (Event.is_running b ∷ past) = not b || settled past
settled (Event.failsafe_accepted ∷ past) = true
settled (Event.delete_leader paused ∷ past) = not paused && settled past
settled (_ ∷ past) = settled past

-- The configuration, out of pause, and, with `b`, that the cycle is settled.
pub record Ready (c : Config) (b : Bool) (s : Node) : Type 0 where
  pub unpaused : c.is_paused ≡ false
  pub same : s.ha.config ≡ c
  pub done : (not b || settled s.history) ≡ true

pub record Stays {A : Type 0} (m : M A) : Type 0 where
  pub at : (c : Config) (b : Bool) (s : Node) → Ready c b s → Ready c b (m s).1

-- Where `m` returns, the cycle is settled.
abbrev pub Settled : {A : Type 0} → Config → Result A → Node → Type 0
Settled c (ok a) s = Ready c true s
Settled c (err e) s = Unit {0}

pub record Ends (c : Config) {A : Type 0} (m : M A) : Type 0 where
  pub at : (s : Node) → Ready c false s → Settled c (m s).0 (m s).1

module _ {A : Type 0} where
  pub Stays-pure : (a : A) → Stays (pure a)
  unfolding pure
  Stays-pure a = record { at = λ c b s v. v }

  pub Stays-raise : (e : Error) → Stays (raise {A = A} e)
  unfolding raise
  Stays-raise e = record { at = λ c b s v. v }

  pub Stays-gets : (f : Node → A) → Stays (gets f)
  unfolding gets
  Stays-gets f = record { at = λ c b s v. v }

  pub Stays-lift : (r : Result A) → Stays (lift r)
  unfolding lift
  Stays-lift (ok a) = Stays-pure a
  Stays-lift (err e) = Stays-raise e

  pub Stays-if : (x : Bool) (m n : M A) → Stays m → Stays n → Stays (if x then m else n)
  Stays-if true m n km kn = km
  Stays-if false m n km kn = kn

  Stays-recover :
      (r : Result A) (f : Error → M A) → ((e : Error) → Stays (f e)) → Stays (recover r f)
  Stays-recover (ok a) f k = record { at = λ c b s v. v }
  Stays-recover (err e) f k = k e

  pub Stays-catch :
      (m : M A) (f : Error → M A) → Stays m → ((e : Error) → Stays (f e)) → Stays (catch m f)
  unfolding catch
  Stays-catch m f km kf = record {
    at = λ c b s v. let (r, s') = m s in (Stays-recover r f kf).at c b s' (km.at c b s v);
  }

  Settled-Ready : {c : Config} (r : Result A) (s : Node) → Ready c true s → Settled c r s
  Settled-Ready (ok a) s v = v
  Settled-Ready (err e) s v = tt

  pub Ends-if :
      {c : Config} (x : Bool) (m n : M A) → Ends c m → Ends c n → Ends c (if x then m else n)
  Ends-if true m n km kn = km
  Ends-if false m n km kn = kn

module _ {A B : Type 0} where
  Stays-continue : (r : Result A) (f : A → M B) → ((a : A) → Stays (f a)) → Stays (continue r f)
  Stays-continue (ok a) f k = k a
  Stays-continue (err e) f k = record { at = λ c b s v. v }

  pub Stays-bind : (m : M A) (f : A → M B) → Stays m → ((a : A) → Stays (f a)) → Stays (m >>= f)
  unfolding ◌>>=◌
  Stays-bind m f km kf = record {
    at = λ c b s v. let (r, s') = m s in (Stays-continue r f kf).at c b s' (km.at c b s v);
  }

  Ends-continue :
      {c : Config} (r : Result A) (f : A → M B)
      → ((a : A) → Ends c (f a))
      → (s : Node) → Ready c false s
      → Settled c (continue r f s).0 (continue r f s).1
  Ends-continue (ok a) f k s v = (k a).at s v
  Ends-continue (err e) f k s v = tt

  pub Ends-bind :
      {c : Config} (m : M A) (f : A → M B) → Stays m → ((a : A) → Ends c (f a)) → Ends c (m >>= f)
  unfolding ◌>>=◌
  Ends-bind {c} m f km kf = record {
    at = λ s v. let (r, s') = m s in Ends-continue r f kf s' (km.at c false s v);
  }

  settled_after :
      {c : Config} (r : Result A) (f : A → M B)
      → ((a : A) → Stays (f a))
      → (s : Node) → Ready c true s
      → Settled c (continue r f s).0 (continue r f s).1
  settled_after {c} (ok a) f k s v = Settled-Ready _ _ ((k a).at c true s v)
  settled_after (err e) f k s v = tt

pub Stays-modify :
    (f : Node → Node)
    → ((s : Node) → (f s).history ≡ s.history)
    → ((s : Node) → (f s).ha.config ≡ s.ha.config)
    → Stays (modify f)
unfolding modify
Stays-modify f e e' = record {
  at = λ c b s v. record { unpaused = v.unpaused; same = rw (e' s) v.same; done = rw (e s) v.done };
}

pub Stays-next : Stays next
unfolding next
Stays-next = record {
  at = λ c b s v. record { unpaused = v.unpaused; same = v.same; done = v.done };
}

-- Events that settle nothing and unsettle nothing.
abbrev pub is_idle : Event → Bool
is_idle Event.cycle_started = false
is_idle (Event.acquire_leader_lock b) = false
is_idle (Event.update_leader b) = false
is_idle (Event.stop mode) = false
is_idle Event.failsafe_accepted = false
is_idle (Event.is_primary b) = b
is_idle (Event.is_running b) = b
is_idle (Event.delete_leader paused) = not paused
is_idle _ = true

settled_idle :
    (e : Event) (past : List Event) → is_idle e ≡ true → settled (e ∷ past) ≡ settled past
unfolding settled
settled_idle Event.cycle_started past h = ground arith
settled_idle (Event.acquire_leader_lock b) past h = ground arith
settled_idle (Event.update_leader b) past h = ground arith
settled_idle (Event.stop mode) past h = ground arith
settled_idle Event.failsafe_accepted past h = ground arith
settled_idle (Event.is_primary b) past h = ground arith
settled_idle (Event.is_running b) past h = ground arith
settled_idle (Event.delete_leader paused) past h = ground arith
settled_idle _ past h = refl

pub Stays-log : (e : Event) → is_idle e ≡ true → Stays (log e)
unfolding log modify
Stays-log e h = record {
  at = λ c b s v. record {
    unpaused = v.unpaused;
    same = v.same;
    done = rw (settled_idle e s.history h) v.done;
  };
}

answer_settles :
    (b answer : Bool) (past : List Event)
    → (not b || settled past) ≡ true
    → (not b || (not answer || settled past)) ≡ true
answer_settles b answer past h = ground arith

-- An answer of PostgreSQL takes nothing back.
pub Stays-is_primary : (answer : Bool) → Stays (log (Event.is_primary answer))
unfolding log modify settled
Stays-is_primary answer = record {
  at = λ c b s v. record {
    unpaused = v.unpaused;
    same = v.same;
    done = answer_settles b answer s.history v.done;
  };
}

pub Stays-is_running : (answer : Bool) → Stays (log (Event.is_running answer))
unfolding log modify settled
Stays-is_running answer = record {
  at = λ c b s v. record {
    unpaused = v.unpaused;
    same = v.same;
    done = answer_settles b answer s.history v.done;
  };
}

pub Stays-when : (x : Bool) (m : M (Unit {0})) → Stays m → Stays (when x m)
unfolding when
Stays-when true m k = k
Stays-when false m k = Stays-pure tt

module _ {A B : Type 0} where
  pub settled_next :
      (c : Config) (r : Result A) (f : A → M B)
      → ((a : A) → Stays (f a))
      → (s : Node) → Settled c r s
      → Settled c (continue r f s).0 (continue r f s).1
  settled_next c (ok a) f k s v = settled_after (ok a) f k s v
  settled_next c (err e) f k s v = tt

  pub Ends-seq :
      {c : Config} (m : M A) (f : A → M B) → Ends c m → ((a : A) → Stays (f a)) → Ends c (m >>= f)
  unfolding ◌>>=◌
  Ends-seq {c} m f km kf = record {
    at = λ s v. let (r, s') = m s in settled_next c r f kf s' (km.at s v);
  }
