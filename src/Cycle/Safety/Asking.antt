-- ===== src/Cycle/Safety/Asking.antt =====
-- What the node knows by an answer of PostgreSQL about its role, in patroni/ha.py's cycle.
use patroni.Base.{refl, Bool, true, false, arith}
use patroni.Cycle.Exec.{pure, modify, ◌>>=◌, ◌>>◌}
use patroni.Cycle.Node.{Event, World, M, log, asks_is_primary, asks_is_running}
use patroni.Cycle.Primary.{is_primary_or_unpaused}
use patroni.Cycle.Safety.{
  holds, quiet, vouched, promotes_with_key, releases_quietly, Keeps, KeepsKey, Goes,
}
use patroni.Cycle.Safety.Rules.{forget_calm, KeepsKey-bind, KeepsKey-if, KeepsKey-Keeps}
use patroni.Cycle.Safety.Primitives.{keeps_rules}
use patroni.Cycle.Safety.Answers.{
  Splits, Splits-bind, Splits-if, Splits-true, Splits-false, Goes-bind-split, Goes-bind-update,
  Goes-bind-acquire, Goes-bind-has_lock,
}

module _ (w : World) {h q : Bool} where
  asked_is_primary : (b : Bool) → Splits h q h false h true (log (Event.is_primary b) >> pure b)
  unfolding log modify pure ◌>>=◌ promotes_with_key releases_quietly vouched holds quiet
  asked_is_primary true = record {
    at = λ s v. record {
      promotes = v.promotes;
      releases = v.releases;
      leads = v.leads;
      key = v.key;
      calm = refl;
    };
  }
  asked_is_primary false = record {
    at = λ s v. record {
      promotes = v.promotes;
      releases = v.releases;
      leads = v.leads;
      key = v.key;
      calm = refl;
    };
  }

  asked_is_running : (b : Bool) → Splits h q h q h true (log (Event.is_running b) >> pure b)
  unfolding log modify pure ◌>>=◌ promotes_with_key releases_quietly vouched holds quiet
  asked_is_running true = record {
    at = λ s v. record {
      promotes = v.promotes;
      releases = v.releases;
      leads = v.leads;
      key = v.key;
      calm = v.calm;
    };
  }
  asked_is_running false = record {
    at = λ s v. record {
      promotes = v.promotes;
      releases = v.releases;
      leads = v.leads;
      key = v.key;
      calm = refl;
    };
  }

  pub asks_is_primary-Splits : Splits h q h false h true (asks_is_primary w)
  unfolding asks_is_primary
  asks_is_primary-Splits = search (keeps_rules, Splits-bind, asked_is_primary)

  pub asks_is_running-Splits : Splits h q h q h true (asks_is_running w)
  unfolding asks_is_running
  asks_is_running-Splits = search (keeps_rules, Splits-bind, asked_is_running)

  calm_true : Splits h q h false h true (pure true)
  unfolding pure
  calm_true = record { at = λ s v. forget_calm v }

  pub is_primary_or_unpaused-Splits : Splits h q h false h true (is_primary_or_unpaused w)
  unfolding is_primary_or_unpaused
  is_primary_or_unpaused-Splits =
      search (keeps_rules, Splits-bind, Splits-if, asks_is_primary-Splits, calm_true)

asked-KeepsKey : (b : Bool) → KeepsKey (log (Event.is_primary b) >> pure b)
unfolding log modify pure ◌>>=◌ promotes_with_key releases_quietly vouched holds quiet
asked-KeepsKey b = record {
  at = λ h q s v. record {
    promotes = v.promotes;
    releases = v.releases;
    leads = v.leads;
    key = v.key;
    calm = refl;
  };
}

asked-Keeps : (b : Bool) → Keeps (log (Event.is_running b) >> pure b)
unfolding log modify pure ◌>>=◌ promotes_with_key releases_quietly vouched holds quiet
asked-Keeps true = record {
  at = λ h q s v. record {
    promotes = v.promotes;
    releases = v.releases;
    leads = v.leads;
    key = v.key;
    calm = v.calm;
  };
}
asked-Keeps false = record {
  at = λ h q s v. record {
    promotes = v.promotes;
    releases = v.releases;
    leads = v.leads;
    key = v.key;
    calm = ground arith;
  };
}

pub asks_is_primary-KeepsKey : (w : World) → KeepsKey (asks_is_primary w)
unfolding asks_is_primary
asks_is_primary-KeepsKey w = search (keeps_rules, KeepsKey-bind, KeepsKey-Keeps, asked-KeepsKey)

pub asks_is_running-Keeps : (w : World) → Keeps (asks_is_running w)
unfolding asks_is_running
asks_is_running-Keeps w = search (keeps_rules, asked-Keeps)

pub is_primary_or_unpaused-KeepsKey : (w : World) → KeepsKey (is_primary_or_unpaused w)
unfolding is_primary_or_unpaused
is_primary_or_unpaused-KeepsKey w =
    search (keeps_rules, KeepsKey-bind, KeepsKey-if, KeepsKey-Keeps, asks_is_primary-KeepsKey)

module _ {B : Type 0} (w : World) (f : Bool → M B) {h q : Bool} where
  pub Goes-bind-is_primary :
      Goes h false (f true) → Goes h true (f false) → Goes h q (asks_is_primary w >>= f)
  Goes-bind-is_primary = Goes-bind-split _ f (asks_is_primary-Splits w)

  pub Goes-bind-is_running :
      Goes h q (f true) → Goes h true (f false) → Goes h q (asks_is_running w >>= f)
  Goes-bind-is_running = Goes-bind-split _ f (asks_is_running-Splits w)

  pub Goes-bind-unpaused :
      Goes h false (f true) → Goes h true (f false) → Goes h q (is_primary_or_unpaused w >>= f)
  Goes-bind-unpaused = Goes-bind-split _ f (is_primary_or_unpaused-Splits w)

pub ruleset split_rules = (
  Goes-bind-update, Goes-bind-acquire, Goes-bind-has_lock, Goes-bind-is_primary,
  Goes-bind-is_running, Goes-bind-unpaused,
)
