-- ===== src/Http/Handling.antt =====
-- A handler calls a use case and answers by what it returned.
pub mod Answers
use kde_auth.Domain.Errors.{Error, Result, ok, err}
use kde_auth.State.{State}
use kde_auth.Exec.{Exec}
use kde_auth.RateLimit.{Limiter}
use kde_auth.Http.{Response}

abbrev pub Handler : Type 0
Handler = State → Response × State

-- The database and the limiter of the endpoint.
abbrev pub World : Type 0
World = State × Limiter

abbrev pub respond : Response → Handler
respond response s = (response, s)

module _ {A : Type 0} where
  abbrev pub branch : (A → Handler) → (Error → Handler) → Result A → Handler
  branch done failed (ok a) s = done a s
  branch done failed (err e) s = failed e s

  -- `if err != nil { failed; return }; done`
  unfoldable pub call : Exec A → (A → Handler) → (Error → Handler) → Handler
  call m done failed s = let (result, s') = m s in branch done failed result s'
