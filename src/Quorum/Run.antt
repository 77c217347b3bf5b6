-- ===== src/Quorum/Run.antt =====
-- The generators of patroni/quorum.py as actions: a result or an exception, the resolver after it,
-- and the transitions that were yielded, in order. What was assigned before a `raise` stays.
use patroni.Base.{Bool, List, [], ◌++◌, if◌then◌else◌}
use patroni.Quorum.State.{Error, assertion_error, Result, ok, err, Resolver, Transition}

abbrev pub M : Type 0 → Type 0
M A = Resolver → Result A × Resolver × List Transition

module _ {A : Type 0} where
  unfoldable pub pure : A → M A
  pure a s = (ok a, s, [])

  unfoldable pub raise : Error → M A
  raise e s = (err e, s, [])

unfoldable pub get : M Resolver
get s = (ok s, s, [])

module _ {A B : Type 0} where
  abbrev pub continue :
      Result A → Resolver → List Transition → (A → M B) → Result B × Resolver × List Transition
  continue (err e) s out f = (err e, s, out)
  continue (ok a) s out f = let r = f a s in (r.0, r.1, out ++ r.2)

  infixl 5 ◌>>=◌
  -- Opening this opens `pure`, `raise` and `get` too.
  unfoldable pub ◌>>=◌ : M A → (A → M B) → M B
  unfolding pure raise get
  ◌>>=◌ m f s = let r = m s in continue r.0 r.1 r.2 f

infixl 5 ◌>>◌
abbrev pub ◌>>◌ : {B : Type 0} → M (Unit {0}) → M B → M B
m >> n = m >>= λ _. n

abbrev pub when : Bool → M (Unit {0}) → M (Unit {0})
when c m = if c then m else pure tt

-- `assert c`
abbrev pub assert : Bool → M (Unit {0})
assert c = if c then pure tt else raise assertion_error

-- `try: m except QuorumError: handler`
module _ {A : Type 0} where
  abbrev pub recover :
      Result A → Resolver → List Transition → M A → Result A × Resolver × List Transition
  recover (ok a) s out handler = (ok a, s, out)
  recover (err assertion_error) s out handler = (err assertion_error, s, out)
  recover (err e) s out handler = let r = handler s in (r.0, r.1, out ++ r.2)

  unfoldable pub except_quorum_error : M A → M A → M A
  except_quorum_error m handler s = let r = m s in recover r.0 r.1 r.2 handler
