-- ===== src/UseCase/AccountEmails.antt =====
-- internal/usecase/account_emails.go
use kde_auth.Prelude.{String, Bool, List, map, not, ◌==◌}
use kde_auth.Domain.Errors.{unauthorized, email_taken, email_limit_reached}
use kde_auth.Domain.Email.{parse_email}
use kde_auth.Domain.User.{User, UserEmail, EmailRole, can_authorize, is_verified, is_pending}
use kde_auth.Port.{Deployment, Moment}
use kde_auth.Exec.{Exec, pure, lift, guard, if_not_found, ◌>>=◌, ◌>>◌}
use kde_auth.Store.Users
use kde_auth.Store.Emails
use kde_auth.UseCase.Captcha.{verify_captcha}
use kde_auth.UseCase.Register.{send_verification_link}

pub record AccountEmailView : Type 0 where
  pub email : String
  pub role : EmailRole
  pub verified : Bool
  pub pending : Bool

pub record AddEmailInput : Type 0 where
  pub user_id : String
  pub email : String
  pub captcha_token : String
  pub remote_ip : String

abbrev pub email_view : UserEmail → AccountEmailView
email_view row = record {
  email = row.email;
  role = row.role;
  verified = is_verified row;
  pending = is_pending row;
}

module _ (dep : Deployment) (at : Moment) where
  unfoldable pub require_user : String → Exec User
  require_user id = do
    guard (not (id == "")) unauthorized
    if_not_found unauthorized (Users.by_id dep at id)

  unfoldable pub list_emails : String → Exec (List AccountEmailView)
  list_emails id = do
    require_user id
    rows ← Emails.list_by_user dep at id
    pure (map email_view rows)

  -- The checks before the row is inserted; returns the address.
  unfoldable pub check_addition : AddEmailInput → Exec String
  check_addition input = do
    guard (not (input.user_id == "")) unauthorized
    verify_captcha at input.captcha_token input.remote_ip
    user ← if_not_found unauthorized (Users.by_id dep at input.user_id)
    lift (can_authorize user)
    email ← lift (parse_email dep.library input.email)
    guard (not (email == user.email)) email_taken
    second ← Emails.has_secondary dep at input.user_id
    guard (not second) email_limit_reached
    taken ← Users.exists_by_email dep at email
    guard (not taken) email_taken
    pure email

  unfoldable pub add_email : AddEmailInput → Exec (Unit {0})
  add_email input = do
    email ← check_addition input
    Emails.insert_pending_secondary dep at input.user_id email
    send_verification_link dep at input.user_id email email

  unfoldable pub cancel_email : String → Exec (Unit {0})
  cancel_email id = do require_user id; Emails.delete_pending_secondary dep at id

  unfoldable pub delete_email : (id email : String) → Exec (Unit {0})
  delete_email id raw_email = do
    require_user id
    email ← lift (parse_email dep.library raw_email)
    Emails.delete_verified dep at id email
