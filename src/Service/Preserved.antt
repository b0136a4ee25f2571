-- ===== src/Service/Preserved.antt =====
-- The interface between an invariant and the service: an invariant that every repository call keeps
-- is kept by every request.
pub mod Calls
pub mod SignIn
pub mod Accounts
pub mod Admin
pub mod Steps
pub mod OneTable
use kde_auth.Prelude.{ℕ, String, List, ◌≡◌, some}
use kde_auth.Domain.User.{User, UserEmail, UserStatus, Session, UserAppAccess}
use kde_auth.Domain.Client.{OauthClient}
use kde_auth.Domain.Token.{
  AuthorizationCode, RefreshToken, EmailVerificationToken, PasswordResetToken, RegistrationTicket,
}
use kde_auth.Port.{Deployment, Moment}
use kde_auth.State.{State, Mail, SessionRow, InviteRow}
use kde_auth.Exec.Keeps.{Keeps}
use kde_auth.Store.Users
use kde_auth.Store.Emails
use kde_auth.Store.Tickets
use kde_auth.Store.Tokens.Codes.{create_authorization_code, consume_authorization_code}
use kde_auth.Store.Tokens.Refreshes.{
  create_refresh_token, consume_refresh_token, revoke_all_refresh_tokens_for_user,
}
use kde_auth.Store.Tokens.Verifications.{
  create_email_verification_token, consume_email_verification_token,
}
use kde_auth.Store.Tokens.Resets.{create_password_reset_token, consume_password_reset_token}

-- The property reads neither the sessions, the clients, the invites, the accesses nor the mail.
pub record Ignores (P : State → Type 0) : Type 0 where
  pub sessions : (s : State) (x : List SessionRow) → P s → P (record s { sessions = x })
  pub clients : (s : State) (x : List OauthClient) → P s → P (record s { clients = x })
  pub invites : (s : State) (x : List InviteRow) → P s → P (record s { invites = x })
  pub accesses : (s : State) (x : List UserAppAccess) → P s → P (record s { accesses = x })
  pub outbox : (s : State) (x : List Mail) → P s → P (record s { outbox = x })

-- The writing methods on the other tables keep the property at that moment. The hash of a new
-- token is that of the moment's random draw.
pub record Preserved (dep : Deployment) (at : Moment) (P : State → Type 0) : Type 0 where
  pub ignores : Ignores P
  pub create_user : (u : User) → Keeps P (Users.create dep at u)
  pub mark_email_verified : (id : String) → Keeps P (Users.mark_email_verified dep at id)
  pub update_password : (id hash : String) → Keeps P (Users.update_password dep at id hash)
  pub set_status : (id : String) (status : UserStatus) → Keeps P (Users.set_status dep at id status)
  pub delete_user : (id : String) → Keeps P (Users.delete dep at id)
  pub insert_pending :
      (id email : String) → Keeps P (Emails.insert_pending_secondary dep at id email)
  pub mark_verified : (id email : String) → Keeps P (Emails.mark_verified dep at id email)
  pub delete_pending : (id : String) → Keeps P (Emails.delete_pending_secondary dep at id)
  pub delete_verified : (id email : String) → Keeps P (Emails.delete_verified dep at id email)
  pub create_code :
      (code : AuthorizationCode) (raw : String)
      → at.random ≡ some raw
      → Keeps P (create_authorization_code at code (dep.hash_token raw))
  pub consume_code : (h : String) (now : ℕ) → Keeps P (consume_authorization_code at h now)
  pub create_refresh :
      (token : RefreshToken) (raw : String)
      → at.random ≡ some raw
      → Keeps P (create_refresh_token at token (dep.hash_token raw))
  pub consume_refresh : (h : String) (now : ℕ) → Keeps P (consume_refresh_token at h now)
  pub revoke_refreshes :
      (id : String) (now : ℕ) → Keeps P (revoke_all_refresh_tokens_for_user at id now)
  pub create_verification :
      (token : EmailVerificationToken) (raw : String)
      → at.random ≡ some raw
      → Keeps P (create_email_verification_token at token (dep.hash_token raw))
  pub consume_verification :
      (h : String) (now : ℕ) → Keeps P (consume_email_verification_token at h now)
  pub create_reset :
      (token : PasswordResetToken) (raw : String)
      → at.random ≡ some raw
      → Keeps P (create_password_reset_token at token (dep.hash_token raw))
  pub consume_reset : (h : String) (now : ℕ) → Keeps P (consume_password_reset_token at h now)
  pub create_ticket :
      (ticket : RegistrationTicket) (raw : String)
      → at.random ≡ some raw
      → Keeps P (Tickets.create at ticket (dep.hash_token raw))
  pub consume_ticket : (h : String) (now : ℕ) → Keeps P (Tickets.consume at h now)
