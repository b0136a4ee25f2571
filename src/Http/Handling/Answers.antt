-- ===== src/Http/Handling/Answers.antt =====
-- What the answer of a handler says of the use case's result.
use kde_auth.Prelude.{◌≡◌, ap, ◌⊎◌, inl, inr}
use kde_auth.Domain.Errors.{Error, Result, ok, err, Result-cases}
use kde_auth.State.{State}
use kde_auth.Exec.{Exec}
use kde_auth.Http.Handling.{Handler, call, branch}

module _ {A : Type 0} where
  -- The use case returned and its answer is given, or it failed.
  pub call-cases :
      (m : Exec A) (done : A → Handler) (failed : Error → Handler) (s : State)
      → ((a : A) × (m s ≡ (ok a, (m s).1)) × (call m done failed s ≡ done a (m s).1))
        ⊎ ((e : Error) × (m s ≡ (err e, (m s).1)) × (call m done failed s ≡ failed e (m s).1))
  unfolding call
  call-cases m done failed s = elim (Result-cases (m s).0) [
    | inl (a, h) ↦
        inl (a, (λ i. (h i, (m s).1)), ap (λ (r : Result A). branch done failed r (m s).1) h)
    | inr (e, h) ↦
        inr (e, (λ i. (h i, (m s).1)), ap (λ (r : Result A). branch done failed r (m s).1) h)
  ]
