-- ===== src/UseCase/Passwords/Silence.antt =====
-- A password reset for an address that cannot be reset.
use kde_auth.Prelude.{String, ◌≡◌, refl, ◌∙◌, none, some, ◌⊎◌, inl, inr, false, ap}
use kde_auth.Domain.Errors.{Error, Result, ok, err, forbidden, not_found}
use kde_auth.Domain.Email.{parse_email}
use kde_auth.Domain.User.{User, can_authenticate}
use kde_auth.Port.{Deployment, Moment, users_by_email}
use kde_auth.State.{State}
use kde_auth.Exec.{lift, transaction, select_row, pure}
use kde_auth.Exec.Rules.{bind-run}
use kde_auth.Store.Users
use kde_auth.Store.Users.{user_by_email}
use kde_auth.UseCase.Captcha.{verify_captcha, captcha_result}
use kde_auth.UseCase.Passwords.{
  RequestResetInput, after_lookup, after_parse, reset_for_address, request_password_reset,
}

-- The text is no address, or the address is no verified one of an account, or the account is
-- suspended.
abbrev pub Unreachable : Deployment → Moment → String → State → Type 0
Unreachable dep at raw s =
    ((e : Error) × (parse_email dep.library raw ≡ err e))
    ⊎ ((email : String) × (parse_email dep.library raw ≡ ok email)
        × ((user_by_email dep at email s ≡ none)
            ⊎ ((user : User) × (user_by_email dep at email s ≡ some user)
                × (can_authenticate user ≡ err forbidden))))

module _ (dep : Deployment) (at : Moment) where
  by_email-none :
      (email : String) (s : State)
      → at.fails users_by_email ≡ false
      → user_by_email dep at email s ≡ none
      → Users.by_email dep at email s ≡ (err not_found, s)
  unfolding Users.by_email transaction select_row
  by_email-none email s f h = rw (f, h)

  by_email-some :
      (email : String) (s : State) (user : User)
      → at.fails users_by_email ≡ false
      → user_by_email dep at email s ≡ some user
      → Users.by_email dep at email s ≡ (ok user, s)
  unfolding Users.by_email transaction select_row
  by_email-some email s user f h = rw (f, h)

  reset_for_address-none :
      (email : String) (s : State)
      → at.fails users_by_email ≡ false
      → user_by_email dep at email s ≡ none
      → reset_for_address dep at email s ≡ (ok tt, s)
  unfolding reset_for_address pure
  reset_for_address-none email s f h =
      ap (λ (p : Result User × State). after_lookup dep at email p.0 p.1)
        (by_email-none email s f h)

  reset_for_address-suspended :
      (email : String) (s : State) (user : User)
      → at.fails users_by_email ≡ false
      → user_by_email dep at email s ≡ some user
      → can_authenticate user ≡ err forbidden
      → reset_for_address dep at email s ≡ (ok tt, s)
  unfolding reset_for_address pure
  reset_for_address-suspended email s user f h d =
      ap (λ (p : Result User × State). after_lookup dep at email p.0 p.1)
        (by_email-some email s user f h)
      ∙ rw d refl

  pure_run : (s : State) → pure {A = Unit {0}} tt s ≡ (ok tt, s)
  unfolding pure
  pure_run s = refl

  checked :
      (input : RequestResetInput) (s : State)
      → at.captcha input.captcha_token input.remote_ip ≡ none
      → request_password_reset dep at input s
        ≡ after_parse dep at (parse_email dep.library input.email) s
  unfolding request_password_reset verify_captcha lift
  checked input s c =
      bind-run (verify_captcha at input.captcha_token input.remote_ip) _ s tt s
        (λ i. (captcha_result (c i), s))

  -- A request to reset a password answers without an error, and neither stores a token nor sends a
  -- letter nor changes anything else, where the text is no address, no account has the address as a
  -- verified one, or the account is suspended; the captcha must pass, and the look-up answer.
  pub request_password_reset-unchanged :
      (input : RequestResetInput) (s : State)
      → at.captcha input.captcha_token input.remote_ip ≡ none
      → at.fails users_by_email ≡ false
      → Unreachable dep at input.email s
      → request_password_reset dep at input s ≡ (ok tt, s)
  unfolding request_password_reset
  request_password_reset-unchanged input s c f (inl (e, bad)) =
      checked input s c ∙ ap (λ (r : Result String). after_parse dep at r s) bad ∙ pure_run s
  request_password_reset-unchanged input s c f (inr (email, good, inl missing)) =
      checked input s c
      ∙ ap (λ (r : Result String). after_parse dep at r s) good
      ∙ reset_for_address-none email s f missing
  request_password_reset-unchanged input s c f (inr (email, good, inr (user, known, denied))) =
      checked input s c
      ∙ ap (λ (r : Result String). after_parse dep at r s) good
      ∙ reset_for_address-suspended email s user f known denied
