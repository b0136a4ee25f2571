-- ===== src/UseCase/Passwords.antt =====
-- internal/usecase/password_reset.go and change_password.go
pub mod Revocation
pub mod Silence
use kde_auth.Prelude.{
  ℕ, ◌+◌, String, Bool, true, false, not, ◌==◌, concat, List, [], ◌∷◌, ◌++◌, if◌then◌else◌,
}
use kde_auth.Domain.Errors.{
  Error, Result, ok, err, invalid_token, unauthorized, invalid_credentials, validation_error,
  is_not_found,
}
use kde_auth.Domain.Email.{parse_email}
use kde_auth.Domain.Pkce.{new_plain_password}
use kde_auth.Domain.User.{User, can_authenticate, can_authorize}
use kde_auth.Port.{Deployment, Moment, mail_reset}
use kde_auth.State.{State, Mail}
use kde_auth.Exec.{
  Exec, pure, lift, guard, write, transaction, or_error, if_not_found, or_internal, ◌>>=◌, ◌>>◌,
}
use kde_auth.Store.Users
use kde_auth.Store.Sessions
use kde_auth.Store.Tokens.Refreshes.{revoke_all_refresh_tokens_for_user}
use kde_auth.Store.Tokens.Resets.{create_password_reset_token, consume_password_reset_token}
use kde_auth.UseCase.Captcha.{verify_captcha}

abbrev pub password_reset_ttl : ℕ
password_reset_ttl = 3600

pub record RequestResetInput : Type 0 where
  pub email : String
  pub captcha_token : String
  pub remote_ip : String

pub record ResetInput : Type 0 where
  pub token : String
  pub password : String
  pub password_confirm : String

pub record ChangeInput : Type 0 where
  pub user_id : String
  pub current_password : String
  pub new_password : String
  pub new_password_confirm : String

unfoldable pub send_password_reset : Moment → String → String → Exec (Unit {0})
send_password_reset at to url =
    transaction at mail_reset
      (write (λ s. record s { outbox = s.outbox ++ Mail.reset to url ∷ [] }))

module _ (dep : Deployment) (at : Moment) where
  unfoldable pub send_reset_link : User → String → Exec (Unit {0})
  unfolding send_password_reset
  send_reset_link user email = do
    raw_token ← or_internal at.random
    create_password_reset_token at
        (record { token = raw_token; user_id = user.id; expires_at = at.now + password_reset_ttl })
        (dep.hash_token raw_token)
    send_password_reset at email (concat dep.issuer (concat "/reset-password?token=" raw_token))

  -- A suspended account gets no letter, and no error either.
  abbrev pub after_check : User → String → Result (Unit {0}) → Exec (Unit {0})
  after_check user email (ok _) = send_reset_link user email
  after_check user email (err _) = pure tt

  abbrev pub reset_for_user : String → User → Exec (Unit {0})
  reset_for_user email user = after_check user email (can_authenticate user)

  abbrev pub after_lookup : String → Result User → Exec (Unit {0})
  after_lookup email (ok user) = reset_for_user email user
  after_lookup email (err e) = if is_not_found e then pure tt else lift (err e)

  -- `Execute` goes on without an error where the address has no account.
  unfoldable pub reset_for_address : String → Exec (Unit {0})
  reset_for_address email s = let (r, s') = Users.by_email dep at email s in after_lookup email r s'

  -- So it does where the text is no address.
  abbrev pub after_parse : Result String → Exec (Unit {0})
  after_parse (ok email) = reset_for_address email
  after_parse (err _) = pure tt

  unfoldable pub request_password_reset : RequestResetInput → Exec (Unit {0})
  request_password_reset input = do
    verify_captcha at input.captcha_token input.remote_ip
    after_parse (parse_email dep.library input.email)

  -- The new hash, then every session and every refresh token of the user is revoked.
  unfoldable pub set_password : String → String → Exec (Unit {0})
  set_password id hash = do
    Users.update_password dep at id hash
    Sessions.revoke_all_for_user at id at.now
    revoke_all_refresh_tokens_for_user at id at.now

  unfoldable pub reset_password : ResetInput → Exec (Unit {0})
  reset_password input = do
    guard (not (input.token == "")) invalid_token
    guard (input.password == input.password_confirm)
        (validation_error "password_confirm" "passwords do not match")
    password ← lift (new_plain_password input.password)
    hash ← or_internal (at.hash_password password)
    token ←
        if_not_found invalid_token
          (consume_password_reset_token at (dep.hash_token input.token) at.now)
    set_password token.user_id hash

  -- The checks on the form.
  unfoldable pub check_change : ChangeInput → Exec String
  check_change input = do
    guard (not (input.current_password == ""))
        (validation_error "current_password" "current password is required")
    guard (input.new_password == input.new_password_confirm)
        (validation_error "new_password_confirm" "passwords do not match")
    new_password ← lift (new_plain_password input.new_password)
    guard (not (input.new_password == input.current_password))
        (validation_error "new_password" "new password must be different")
    pure new_password

  unfoldable pub change_password : ChangeInput → Exec (Unit {0})
  change_password input = do
    new_password ← check_change input
    user ← if_not_found unauthorized (Users.by_id dep at input.user_id)
    or_error unauthorized (lift (can_authorize user))
    guard (dep.verify_password user.password_hash input.current_password) invalid_credentials
    hash ← or_internal (at.hash_password new_password)
    set_password user.id hash
