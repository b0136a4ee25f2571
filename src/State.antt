-- ===== src/State.antt =====
-- The rows of the database (migrations/*.sql) and the mail that was sent.
use kde_auth.Prelude.{ℕ, String, Option, List, []}
use kde_auth.Domain.User.{User, UserEmail, Session, UserAppAccess}
use kde_auth.Domain.Client.{OauthClient}
use kde_auth.Domain.Invite.{Invite}

pub record SessionRow : Type 0 where
  pub token_hash : String
  pub session : Session
  pub revoked_at : Option ℕ
  pub created_at : ℕ

-- The columns code_challenge and code_challenge_method may be NULL.
pub record CodeRow : Type 0 where
  pub code_hash : String
  pub user_id : String
  pub client_id : String
  pub redirect_uri : String
  pub scope : String
  pub code_challenge : Option String
  pub code_challenge_method : Option String
  pub expires_at : ℕ
  pub used_at : Option ℕ

pub record RefreshRow : Type 0 where
  pub token_hash : String
  pub user_id : String
  pub client_id : String
  pub scope : String
  pub expires_at : ℕ
  pub revoked_at : Option ℕ

-- The column email may be NULL.
pub record VerificationRow : Type 0 where
  pub token_hash : String
  pub user_id : String
  pub email : Option String
  pub expires_at : ℕ
  pub used_at : Option ℕ

pub record ResetRow : Type 0 where
  pub token_hash : String
  pub user_id : String
  pub expires_at : ℕ
  pub used_at : Option ℕ

pub record TicketRow : Type 0 where
  pub token_hash : String
  pub client_id : String
  pub expires_at : ℕ
  pub used_at : Option ℕ

pub record InviteRow : Type 0 where
  pub token_hash : String
  pub invite : Invite

pub data Mail : Type 0 where
  verification reset : (to url : String) → Mail
  invitation : (to app url : String) → Mail

pub record State : Type 0 where
  pub users : List User
  pub emails : List UserEmail
  pub clients : List OauthClient
  pub sessions : List SessionRow
  pub codes : List CodeRow
  pub refreshes : List RefreshRow
  pub verifications : List VerificationRow
  pub resets : List ResetRow
  pub tickets : List TicketRow
  pub invites : List InviteRow
  pub accesses : List UserAppAccess
  pub outbox : List Mail

abbrev pub empty : State
empty = record {
  users = [];
  emails = [];
  clients = [];
  sessions = [];
  codes = [];
  refreshes = [];
  verifications = [];
  resets = [];
  tickets = [];
  invites = [];
  accesses = [];
  outbox = [];
}
