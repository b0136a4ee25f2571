-- ===== src/Domain/Errors.antt =====
-- internal/domain/errors.go; a fallible function returns a `Result`.
use kde_auth.Prelude.{String, Bool, true, false, ◌≡◌, refl, ◌⊎◌, inl, inr, arith}

-- `internal` stands for every error that is no value of the package: a failed driver call, a
-- violated constraint, a random source or a mail server that fails.
pub data Error : Type 0 where
  not_found invalid_credentials email_taken registration_closed invite_only_registration : Error
  too_many_attempts invalid_redirect_uri invalid_client invalid_grant invalid_scope : Error
  unauthorized forbidden no_app_access invalid_token captcha_failed : Error
  email_limit_reached cannot_delete_last_email internal : Error
  validation_error : (field message : String) → Error

pub data Result {ℓ} (A : Type ℓ) : Type ℓ where
  ok : A → Result A
  err : Error → Result A

-- `errors.Is(err, domain.ErrNotFound)`
abbrev pub is_not_found : Error → Bool
is_not_found not_found = true
is_not_found _ = false

infixl 5 ◌>>=◌ ◌>>◌
abbrev pub ◌>>=◌ {ℓ κ} : {A : Type ℓ} {B : Type κ} → Result A → (A → Result B) → Result B
err failure >>= next = err failure
ok value >>= next = next value

abbrev pub ◌>>◌ {ℓ} : {B : Type ℓ} → Result (Unit {0}) → Result B → Result B
check >> next = check >>= λ _. next

abbrev pub is_ok {ℓ} : {A : Type ℓ} → Result A → Bool
is_ok (ok _) = true
is_ok (err _) = false

abbrev pub check : Bool → Error → Result (Unit {0})
check true e = ok tt
check false e = err e

pub Result-cases {ℓ} :
    {A : Type ℓ} (r : Result A) → ((a : A) × (r ≡ ok a)) ⊎ ((e : Error) × (r ≡ err e))
Result-cases (ok a) = inl (a, refl)
Result-cases (err e) = inr (e, refl)

pub ok_injective {ℓ} : {A : Type ℓ} {a b : A} → ok a ≡ ok b → a ≡ b
ok_injective h = cc

pub ok-ne-err {ℓ κ} : {A : Type ℓ} {B : Type κ} {a : A} {e : Error} → ok a ≡ err e → B
ok-ne-err h = absurd (ground arith)
