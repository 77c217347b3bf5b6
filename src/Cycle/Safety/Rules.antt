-- ===== src/Cycle/Safety/Rules.antt =====
-- The rules for each way to build an action of the cycle of patroni/ha.py.
use patroni.Base.{◌≡◌, refl, Bool, true, false, if◌then◌else◌}
use patroni.Cycle.Exec.{
  Error, Result, ok, err, pure, raise, gets, modify, continue, ◌>>=◌, recover, catch,
}
use patroni.Cycle.Node.{Call, Event, Node, M, next, log, lift}
use patroni.Cycle.Safety.{
  holds, quiet, vouched, promotes_with_key, releases_quietly, At, Keeps, KeepsKey, Goes,
}

abbrev pub forget : {h q : Bool} {s : Node} → At h q s → At false false s
forget a = record {
  promotes = a.promotes;
  releases = a.releases;
  leads = a.leads;
  key = refl;
  calm = refl;
}

abbrev pub forget_calm : {h q : Bool} {s : Node} → At h q s → At h false s
forget_calm a = record {
  promotes = a.promotes;
  releases = a.releases;
  leads = a.leads;
  key = a.key;
  calm = refl;
}

module _ {A : Type 0} where
  pub Keeps-pure : (a : A) → Keeps (pure a)
  unfolding pure
  Keeps-pure a = record { at = λ h q s v. v }

  pub Keeps-raise : (e : Error) → Keeps (raise {A = A} e)
  unfolding raise
  Keeps-raise e = record { at = λ h q s v. v }

  pub Keeps-gets : (f : Node → A) → Keeps (gets f)
  unfolding gets
  Keeps-gets f = record { at = λ h q s v. v }

  pub Keeps-lift : (r : Result A) → Keeps (lift r)
  unfolding lift
  Keeps-lift (ok a) = Keeps-pure a
  Keeps-lift (err e) = Keeps-raise e

  pub Keeps-if : (b : Bool) (m n : M A) → Keeps m → Keeps n → Keeps (if b then m else n)
  Keeps-if true m n km kn = km
  Keeps-if false m n km kn = kn

  pub KeepsKey-if : (b : Bool) (m n : M A) → KeepsKey m → KeepsKey n → KeepsKey (if b then m else n)
  KeepsKey-if true m n km kn = km
  KeepsKey-if false m n km kn = kn

  pub KeepsKey-Keeps : (m : M A) → Keeps m → KeepsKey m
  KeepsKey-Keeps m k = record { at = λ h q s v. forget_calm (k.at h q s v) }

module _ {A : Type 0} {h q : Bool} where
  pub Goes-if : (b : Bool) (m n : M A) → Goes h q m → Goes h q n → Goes h q (if b then m else n)
  Goes-if true m n km kn = km
  Goes-if false m n km kn = kn

  pub Goes-Keeps : (m : M A) → Keeps m → Goes h q m
  Goes-Keeps m k = record { at = λ s v. forget (k.at h q s v) }

  pub Goes-KeepsKey : (m : M A) → KeepsKey m → Goes h q m
  Goes-KeepsKey m k = record { at = λ s v. forget (k.at h q s v) }

  pub Goes-any : (m : M A) → Goes false false m → Goes h q m
  Goes-any m k = record { at = λ s v. k.at s (forget v) }

  pub Goes-key : (m : M A) → Goes h false m → Goes h q m
  Goes-key m k = record { at = λ s v. k.at s (forget_calm v) }

module _ {A B : Type 0} where
  Keeps-continue : (r : Result A) (f : A → M B) → ((a : A) → Keeps (f a)) → Keeps (continue r f)
  Keeps-continue (ok a) f k = k a
  Keeps-continue (err e) f k = record { at = λ h q s v. v }

  KeepsKey-continue :
      (r : Result A) (f : A → M B) → ((a : A) → KeepsKey (f a)) → KeepsKey (continue r f)
  KeepsKey-continue (ok a) f k = k a
  KeepsKey-continue (err e) f k = record { at = λ h q s v. forget_calm v }

  pub Goes-continue :
      {h q : Bool} (r : Result A) (f : A → M B)
      → ((a : A) → Goes h q (f a))
      → Goes h q (continue r f)
  Goes-continue (ok a) f k = k a
  Goes-continue (err e) f k = record { at = λ s v. forget v }

  pub Keeps-bind : (m : M A) (f : A → M B) → Keeps m → ((a : A) → Keeps (f a)) → Keeps (m >>= f)
  unfolding ◌>>=◌
  Keeps-bind m f km kf = record {
    at = λ h q s v. let (r, s') = m s in (Keeps-continue r f kf).at h q s' (km.at h q s v);
  }

  pub KeepsKey-bind :
      (m : M A) (f : A → M B) → KeepsKey m → ((a : A) → KeepsKey (f a)) → KeepsKey (m >>= f)
  unfolding ◌>>=◌
  KeepsKey-bind m f km kf = record {
    at = λ h q s v. let (r, s') = m s in (KeepsKey-continue r f kf).at h false s' (km.at h q s v);
  }

  pub Goes-bind :
      {h q : Bool} (m : M A) (f : A → M B)
      → Keeps m
      → ((a : A) → Goes h q (f a))
      → Goes h q (m >>= f)
  unfolding ◌>>=◌
  Goes-bind {h} {q} m f km kf = record {
    at = λ s v. let (r, s') = m s in (Goes-continue r f kf).at s' (km.at h q s v);
  }

  pub Goes-bind-key :
      {h q : Bool} (m : M A) (f : A → M B)
      → KeepsKey m
      → ((a : A) → Goes h false (f a))
      → Goes h q (m >>= f)
  unfolding ◌>>=◌
  Goes-bind-key {h} {q} m f km kf = record {
    at = λ s v. let (r, s') = m s in (Goes-continue r f kf).at s' (km.at h q s v);
  }

  pub Goes-seq :
      {h q : Bool} (m : M A) (f : A → M B)
      → Goes h q m
      → ((a : A) → Goes false false (f a))
      → Goes h q (m >>= f)
  unfolding ◌>>=◌
  Goes-seq m f km kf = record {
    at = λ s v. let (r, s') = m s in (Goes-continue r f kf).at s' (km.at s v);
  }

module _ {A : Type 0} where
  Keeps-recover :
      (r : Result A) (f : Error → M A) → ((e : Error) → Keeps (f e)) → Keeps (recover r f)
  Keeps-recover (ok a) f k = record { at = λ h q s v. v }
  Keeps-recover (err e) f k = k e

  pub Keeps-catch :
      (m : M A) (f : Error → M A) → Keeps m → ((e : Error) → Keeps (f e)) → Keeps (catch m f)
  unfolding catch
  Keeps-catch m f km kf = record {
    at = λ h q s v. let (r, s') = m s in (Keeps-recover r f kf).at h q s' (km.at h q s v);
  }

  Goes-recover :
      (r : Result A) (f : Error → M A)
      → ((e : Error) → Goes false false (f e))
      → Goes false false (recover r f)
  Goes-recover (ok a) f k = record { at = λ s v. v }
  Goes-recover (err e) f k = k e

  pub Goes-catch :
      {h q : Bool} (m : M A) (f : Error → M A)
      → Goes h q m
      → ((e : Error) → Goes false false (f e))
      → Goes h q (catch m f)
  unfolding catch
  Goes-catch m f km kf = record {
    at = λ s v. let (r, s') = m s in (Goes-recover r f kf).at s' (km.at s v);
  }

-- A change of the attributes that the invariant does not read.
pub Keeps-modify :
    (f : Node → Node)
    → ((s : Node) → (f s).history ≡ s.history)
    → ((s : Node) → (f s).leader_expiry ≡ s.leader_expiry)
    → Keeps (modify f)
unfolding modify
Keeps-modify f e e' = record {
  at = λ h q s v. record {
    promotes = rw (e s) v.promotes;
    releases = rw (e s) v.releases;
    leads = rw (e s, e' s) v.leads;
    key = rw (e s) v.key;
    calm = rw (e s) v.calm;
  };
}

pub Keeps-next : Keeps next
unfolding next
Keeps-next = record {
  at = λ h q s v. record {
    promotes = v.promotes;
    releases = v.releases;
    leads = v.leads;
    key = v.key;
    calm = v.calm;
  };
}

pub Keeps-log : (c : Call) → Keeps (log (Event.call c))
unfolding log modify promotes_with_key releases_quietly vouched holds quiet
Keeps-log c = record {
  at = λ h q s v. record {
    promotes = v.promotes;
    releases = v.releases;
    leads = v.leads;
    key = v.key;
    calm = v.calm;
  };
}
