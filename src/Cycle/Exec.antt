-- ===== src/Cycle/Exec.antt =====
-- Methods of `Ha` (patroni/ha.py): they change the node, and may raise. What was done before a raise
-- stays done.

-- `DCSError`, an error of PostgreSQL or of its connection, `PatroniFatalException`, `sys.exit`, and
-- any other exception.
pub data Error : Type 0 where
  dcs_error postgres_error fatal exit unexpected : Error

pub data Result (A : Type 0) : Type 0 where
  ok : A → Result A
  err : Error → Result A

abbrev pub Exec : Type 0 → Type 0 → Type 0
Exec S A = S → Result A × S

module _ {S A : Type 0} where
  unfoldable pub pure : A → Exec S A
  pure a s = (ok a, s)

  unfoldable pub raise : Error → Exec S A
  raise e s = (err e, s)

  unfoldable pub gets : (S → A) → Exec S A
  gets f s = (ok (f s), s)

unfoldable pub modify : {S : Type 0} → (S → S) → Exec S (Unit {0})
modify f s = (ok tt, f s)

module _ {S A B : Type 0} where
  abbrev pub continue : Result A → (A → Exec S B) → Exec S B
  continue (ok a) f s = f a s
  continue (err e) f s = (err e, s)

  infixl 10 ◌>>=◌ ◌>>◌
  unfoldable pub ◌>>=◌ : Exec S A → (A → Exec S B) → Exec S B
  ◌>>=◌ m f s = let (r, s') = m s in continue r f s'

  abbrev pub ◌>>◌ : Exec S A → Exec S B → Exec S B
  m >> n = m >>= λ _. n

module _ {S A : Type 0} where
  abbrev pub recover : Result A → (Error → Exec S A) → Exec S A
  recover (ok a) f s = (ok a, s)
  recover (err e) f s = f e s

  -- `try: m except e: f e`
  unfoldable pub catch : Exec S A → (Error → Exec S A) → Exec S A
  catch m f s = let (r, s') = m s in recover r f s'

  -- `try: m finally: n`
  unfoldable pub finally : Exec S A → Exec S (Unit {0}) → Exec S A
  finally m n s = let (r, s') = m s in continue (n s').0 (λ _ t. (r, t)) (n s').1
