-- ===== src/Cycle/Safety/Answers.antt =====
-- What the node knows by an answer of the DCS about the leader key, in patroni/ha.py's cycle.
use patroni.Base.{
  ◌≡◌, refl, ℕ, Bool, true, false, ◌||◌, ◌∷◌, ◌==◌, arith, ◌⊎◌, inl, inr, if◌then◌else◌,
}
use patroni.Cycle.Exec.{Error, Result, ok, err, pure, gets, modify, continue, ◌>>=◌, ◌>>◌}
use patroni.Cycle.Node.{Call, Event, Node, World, M, next, read, log, perform, when}
use patroni.Cycle.Lock.{set_expiry, set_is_leader, answered, acquire_lock, update_lock}
use patroni.Cycle.Startup.{has_and_updates_lock}
use patroni.Cycle.Safety.{
  holds, quiet, vouched, promotes_with_key, releases_quietly, At, Keeps, Goes,
}
use patroni.Cycle.Safety.Rules.{forget}
use patroni.Cycle.Safety.Primitives.{keeps_rules}

-- After a Boolean result: what is known by `true`, by `false`, and after a raise.
abbrev Split : (ht qt hf qf : Bool) → Result Bool → Node → Type 0
Split ht qt hf qf (ok true) s = At ht qt s
Split ht qt hf qf (ok false) s = At hf qf s
Split ht qt hf qf (err e) s = At false false s

pub record Splits (h q ht qt hf qf : Bool) (m : M Bool) : Type 0 where
  pub at : (s : Node) → At h q s → Split ht qt hf qf (m s).0 (m s).1

module _ {ht qt hf qf : Bool} where
  Goes-split :
      {B : Type 0} (r : Result Bool) (f : Bool → M B)
      → Goes ht qt (f true)
      → Goes hf qf (f false)
      → (s : Node) → Split ht qt hf qf r s
      → At false false (continue r f s).1
  Goes-split (ok true) f kt kf s v = kt.at s v
  Goes-split (ok false) f kt kf s v = kf.at s v
  Goes-split (err e) f kt kf s v = v

module _ {h q ht qt hf qf : Bool} where
  pub Goes-bind-split :
      {B : Type 0} (m : M Bool) (f : Bool → M B)
      → Splits h q ht qt hf qf m
      → Goes ht qt (f true)
      → Goes hf qf (f false)
      → Goes h q (m >>= f)
  unfolding ◌>>=◌
  Goes-bind-split m f km kt kf = record {
    at = λ s v. let (r, s') = m s in Goes-split r f kt kf s' (km.at s v);
  }

  Split-continue :
      {A : Type 0} (r : Result A) (f : A → M Bool)
      → ((a : A) → Splits h q ht qt hf qf (f a))
      → (s : Node) → At h q s
      → Split ht qt hf qf (continue r f s).0 (continue r f s).1
  Split-continue (ok a) f k s v = (k a).at s v
  Split-continue (err e) f k s v = forget v

  pub Splits-bind :
      {A : Type 0} (m : M A) (f : A → M Bool)
      → Keeps m
      → ((a : A) → Splits h q ht qt hf qf (f a))
      → Splits h q ht qt hf qf (m >>= f)
  unfolding ◌>>=◌
  Splits-bind m f km kf = record {
    at = λ s v. let (r, s') = m s in Split-continue r f kf s' (km.at h q s v);
  }

  pub Splits-if :
      (b : Bool) (m n : M Bool)
      → Splits h q ht qt hf qf m
      → Splits h q ht qt hf qf n
      → Splits h q ht qt hf qf (if b then m else n)
  Splits-if true m n km kn = km
  Splits-if false m n km kn = kn

pub Splits-true : {h q hf qf : Bool} → Splits h q h q hf qf (pure true)
unfolding pure
Splits-true = record { at = λ s v. v }

pub Splits-false : {h q ht qt : Bool} → Splits h q ht qt false q (pure false)
unfolding pure
Splits-false = record {
  at = λ s v. record {
    promotes = v.promotes;
    releases = v.releases;
    leads = v.leads;
    key = refl;
    calm = v.calm;
  };
}

answered-Keeps : (r : Result Bool) → Keeps (answered r)
unfolding answered
answered-Keeps (ok b) = search keeps_rules
answered-Keeps (err Error.dcs_error) = search keeps_rules
answered-Keeps (err Error.exit) = search keeps_rules
answered-Keeps (err _) = search keeps_rules

-- The key is taken or updated.
abbrev led : Event → ℕ → ℕ → Node → Node
led e expiry tick s = record s { history = e ∷ s.history; leader_expiry = expiry; tick = tick }

led-At :
    (h q : Bool) (ret : Bool) (e : Event) (expiry tick : ℕ) (s : Node)
    → (e ≡ Event.update_leader ret) ⊎ (e ≡ Event.acquire_leader_lock ret)
    → (ret || expiry == 0) ≡ true
    → At h q s
    → At ret q (led e expiry tick s)
unfolding promotes_with_key releases_quietly vouched holds quiet
led-At h q ret e expiry tick s (inl p) x v = rw p (record {
  promotes = v.promotes;
  releases = v.releases;
  leads = ground (arith, x);
  key = ground arith;
  calm = v.calm;
})
led-At h q ret e expiry tick s (inr p) x v = rw p (record {
  promotes = v.promotes;
  releases = v.releases;
  leads = ground (arith, x);
  key = ground arith;
  calm = v.calm;
})

module _ (w : World) {h q : Bool} where
  settle_update :
      (ret : Bool)
      → Splits h q true q false q (
          log (Event.update_leader ret)
          >> (set_is_leader w ret
              >> (when ret (perform w (Event.call Call.watchdog_keepalive)) >> pure ret)))
  unfolding log modify set_is_leader set_expiry read next gets pure ◌>>=◌
  settle_update true = record {
    at = λ s v.
        (Splits-bind (when true (perform w (Event.call Call.watchdog_keepalive))) (λ _. pure true)
            (search keeps_rules) (λ _. Splits-true)).at
          _ (led-At h q true (Event.update_leader true) _ _ s (inl refl) refl v);
  }
  settle_update false = record {
    at = λ s v.
        (Splits-bind (when false (perform w (Event.call Call.watchdog_keepalive))) (λ _. pure false)
            (search keeps_rules) (λ _. Splits-false)).at
          _ (led-At h q false (Event.update_leader false) _ _ s (inl refl) refl v);
  }

  settle_acquire :
      (ret : Bool)
      → Splits h q true q false q
          (log (Event.acquire_leader_lock ret) >> (set_is_leader w ret >> pure ret))
  unfolding log modify set_is_leader set_expiry read next gets pure ◌>>=◌
  settle_acquire true = record {
    at = λ s v. led-At h q true (Event.acquire_leader_lock true) _ _ s (inr refl) refl v;
  }
  settle_acquire false = record {
    at = λ s v. led-At h q false (Event.acquire_leader_lock false) _ _ s (inr refl) refl v;
  }

  pub update_lock-Splits : (b : Bool) → Splits h q true q false q (update_lock w b)
  unfolding update_lock
  update_lock-Splits b = search (keeps_rules, Splits-bind, answered-Keeps, settle_update) depth 12

  pub acquire_lock-Splits : Splits h q true q false q (acquire_lock w)
  unfolding acquire_lock
  acquire_lock-Splits = search (keeps_rules, Splits-bind, answered-Keeps, settle_acquire) depth 12

  pub has_and_updates_lock-Splits : Splits h q true q false q (has_and_updates_lock w)
  unfolding has_and_updates_lock
  has_and_updates_lock-Splits =
      search (keeps_rules, Splits-bind, Splits-if, update_lock-Splits, Splits-false) depth 12

-- The key is deleted while `quiet`, or in pause.
pub deleted-At :
    (h q p : Bool) (expiry : ℕ) (s : Node)
    → (p || q) ≡ true
    → (expiry == 0) ≡ true
    → At h q s
    → At false q (record s { history = Event.delete_leader p ∷ s.history; leader_expiry = expiry })
unfolding promotes_with_key releases_quietly vouched holds quiet
deleted-At h q p expiry s g e v = record {
  promotes = v.promotes;
  releases = ground (arith, v.releases, v.calm);
  leads = rw e refl;
  key = refl;
  calm = v.calm;
}

module _ {B : Type 0} (w : World) (f : Bool → M B) {h q : Bool} where
  pub Goes-bind-update :
      (b : Bool) → Goes true q (f true) → Goes false q (f false) → Goes h q (update_lock w b >>= f)
  Goes-bind-update b = Goes-bind-split _ f (update_lock-Splits w b)

  pub Goes-bind-acquire :
      Goes true q (f true) → Goes false q (f false) → Goes h q (acquire_lock w >>= f)
  Goes-bind-acquire = Goes-bind-split _ f (acquire_lock-Splits w)

  pub Goes-bind-has_lock :
      Goes true q (f true) → Goes false q (f false) → Goes h q (has_and_updates_lock w >>= f)
  Goes-bind-has_lock = Goes-bind-split _ f (has_and_updates_lock-Splits w)
