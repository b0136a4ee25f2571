-- ===== src/Exec.antt =====
-- A method reads and writes the state and returns a value or an error. What was written before an
-- error stays written: each repository call is a transaction of its own.
pub mod Rules
pub mod Reads
pub mod Keeps
use kde_auth.Prelude.{Bool, true, false, Option, none, some, if◌then◌else◌}
use kde_auth.Domain.Errors.{Error, Result, ok, err, internal, is_not_found}
use kde_auth.State.{State}
use kde_auth.Port.{Op, Moment}

abbrev pub Exec {ℓ} : Type ℓ → Type ℓ
Exec A = State → Result A × State

module _ {ℓ} {A : Type ℓ} where
  unfoldable pub pure : A → Exec A
  pure a s = (ok a, s)

  unfoldable pub raise : Error → Exec A
  raise e s = (err e, s)

  unfoldable pub lift : Result A → Exec A
  lift r s = (r, s)

  -- Reads the state.
  unfoldable pub gets : (State → Result A) → Exec A
  gets f s = (f s, s)

  -- `if err != nil { return ..., e }`
  abbrev replace : Error → Result A → Result A
  replace e (ok a) = ok a
  replace e (err _) = err e

  unfoldable pub or_error : Error → Exec A → Exec A
  or_error e m s = (replace e (m s).0, (m s).1)

  -- `if errors.Is(err, domain.ErrNotFound) { return ..., e }; return ..., err`
  abbrev replace_not_found : Error → Result A → Result A
  replace_not_found e (ok a) = ok a
  replace_not_found e (err e') = if is_not_found e' then err e else err e'

  unfoldable pub if_not_found : Error → Exec A → Exec A
  if_not_found e m s = (replace_not_found e (m s).0, (m s).1)

  -- A transaction: it fails outside the program, or runs; what returns an error is rolled back.
  abbrev commit_if_ok : State → Result A × State → Result A × State
  commit_if_ok s (ok a, s') = (ok a, s')
  commit_if_ok s (err e, s') = (err e, s)

  unfoldable pub transaction : Moment → Op → Exec A → Exec A
  transaction at op m s = if at.fails op then (err internal, s) else commit_if_ok s (m s)

  -- A value that an outside service may fail to give.
  unfoldable pub or_internal : Option A → Exec A
  or_internal none s = (err internal, s)
  or_internal (some a) s = (ok a, s)

  abbrev found : Option A → Result A
  found none = err Error.not_found
  found (some a) = ok a

  -- QueryRow and Scan, where no row is `ErrNotFound`.
  unfoldable pub select_row : (State → Option A) → Exec A
  select_row f s = (found (f s), s)

module _ {ℓ κ} {A : Type ℓ} {B : Type κ} where
  abbrev continue : Result A → (A → State → Result B × State) → State → Result B × State
  continue (ok a) f s = f a s
  continue (err e) f s = (err e, s)

unfoldable pub write : (State → State) → Exec (Unit {0})
write f s = (ok tt, f s)

unfoldable pub guard : Bool → Error → Exec (Unit {0})
guard true e s = (ok tt, s)
guard false e s = (err e, s)

module _ {A B : Type 0} where
  infixl 5 ◌>>=◌ ◌>>◌
  -- Opening this opens the actions above too.
  unfoldable pub ◌>>=◌ : Exec A → (A → Exec B) → Exec B
  unfolding pure raise lift gets or_error if_not_found transaction or_internal select_row write
      guard
  ◌>>=◌ m f s = let (r, s') = m s in continue r f s'

  abbrev pub ◌>>◌ : Exec A → Exec B → Exec B
  m >> n = m >>= λ _. n

-- `_ = call`: the error is dropped.
unfoldable pub ignore : {A : Type 0} → Exec A → Exec (Unit {0})
ignore m s = (ok tt, (m s).1)

abbrev to_option : {A : Type 0} → Result A → Option A
to_option (ok a) = some a
to_option (err _) = none

-- A call whose error is only a missing value to the caller.
unfoldable pub attempt : {A : Type 0} → Exec A → Exec (Option A)
attempt m s = (ok (to_option (m s).0), (m s).1)
