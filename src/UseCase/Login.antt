-- ===== src/UseCase/Login.antt =====
-- internal/usecase/login.go
pub mod Resolution
pub mod SignIn
use kde_auth.Prelude.{ℕ, ◌+◌, String, Bool, not, ◌==◌, if◌then◌else◌}
use kde_auth.Domain.Errors.{
  Error, Result, ok, err, invalid_credentials, forbidden, unauthorized, is_not_found,
}
use kde_auth.Domain.User.{User, Session, can_authenticate, can_authorize, is_email_verified}
use kde_auth.Domain.Email.{parse_email}
use kde_auth.Port.{Deployment, Moment}
use kde_auth.State.{State}
use kde_auth.Exec.{Exec, pure, raise, lift, guard, or_error, if_not_found, or_internal, ◌>>=◌, ◌>>◌}
use kde_auth.UseCase.Captcha.{verify_captcha}
use kde_auth.Store.Users
use kde_auth.Store.Sessions

pub record LoginInput : Type 0 where
  pub email : String
  pub password : String
  pub captcha_token : String
  pub remote_ip : String

pub record LoginResult : Type 0 where
  pub session_token : String
  pub expires_at : ℕ
  pub user : User

module _ (dep : Deployment) (session_ttl : ℕ) (at : Moment) where
  -- The checks on the account and its password, up to the session.
  unfoldable pub authenticate : LoginInput → Exec User
  authenticate input = do
    verify_captcha at input.captcha_token input.remote_ip
    email ← or_error invalid_credentials (lift (parse_email dep.library input.email))
    guard (not (input.password == "")) invalid_credentials
    user ← if_not_found invalid_credentials (Users.by_email dep at email)
    or_error invalid_credentials (lift (can_authenticate user))
    guard (dep.verify_password user.password_hash input.password) invalid_credentials
    guard (is_email_verified user) forbidden
    pure user

  unfoldable pub open_session : User → Exec LoginResult
  open_session user = do
    raw_token ← or_internal at.random
    Sessions.create at (record { id = ""; user_id = user.id; expires_at = at.now + session_ttl })
        (dep.hash_token raw_token)
    pure (record { session_token = raw_token; expires_at = at.now + session_ttl; user = user })

  unfoldable pub login : LoginInput → Exec LoginResult
  login input = do user ← authenticate input; open_session user

module _ (dep : Deployment) (at : Moment) where
  unfoldable pub logout : String → Exec (Unit {0})
  logout session_token =
      if session_token == ""
      then pure tt
      else Sessions.revoke at (dep.hash_token session_token) at.now

  unfoldable pub resolve_session : String → Exec User
  resolve_session session_token = do
    guard (not (session_token == "")) unauthorized
    session ←
        or_error unauthorized (Sessions.by_token_hash at (dep.hash_token session_token) at.now)
    user ← or_error unauthorized (Users.by_id dep at session.user_id)
    or_error unauthorized (lift (can_authorize user))
    pure user
