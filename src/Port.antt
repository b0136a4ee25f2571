-- ===== src/Port.antt =====
-- internal/port and internal/adapter/crypto/random.go, as the use cases see them: what a deployment
-- fixes (`Deployment`) and what the surroundings answer during one request (`Moment`).
use kde_auth.Prelude.{ℕ, String, Bool, Option}
use kde_auth.Domain.Errors.{Error}
use kde_auth.Domain.Library.{Library}
use kde_auth.Domain.User.{Role}

-- The repository methods and the mail deliveries; each may fail in the driver or the network.
pub data Op : Type 0 where
  users_create users_by_email users_by_id users_mark_verified users_update_password : Op
  users_exists : Op
  sessions_create sessions_by_hash sessions_revoke sessions_revoke_all : Op
  codes_create codes_consume refresh_create refresh_consume refresh_revoke : Op
  refresh_revoke_all verification_create verification_consume reset_create reset_consume : Op
  emails_list emails_by_email emails_has_secondary emails_count emails_insert : Op
  emails_mark_verified emails_delete_pending emails_delete_verified : Op
  tickets_create tickets_peek tickets_consume : Op
  accesses_upsert accesses_has : Op
  invites_create invites_by_hash invites_list invites_consume invites_revoke : Op
  clients_by_id clients_list clients_upsert clients_access_mode clients_redirects : Op
  admin_by_id admin_set_status admin_delete : Op
  admin_list admin_count admin_stats admin_apps admin_activity : Op
  mail_verification mail_reset mail_invite : Op

pub record AccessClaims : Type 0 where
  pub subject : String
  pub audience : String
  pub email : String
  pub email_verified : Bool
  pub role : Role
  pub expires_at : ℕ

pub record Deployment : Type 0 where
  pub library : Library
  pub open library use *
  -- SQL lower()
  pub lower : String → String
  -- `text ILIKE pattern`, and the order of texts in ORDER BY: the pattern first, the text second
  pub ilike : String → String → Bool
  pub stands_before : String → String → Bool
  -- crypto.HashToken: SHA-256, in hex
  pub hash_token : String → String
  -- SHA-256, in base64url
  pub s256 : String → String
  -- port.PasswordHasher.Verify
  pub verify_password : String → String → Bool
  -- port.TokenIssuer
  pub issuer : String
  pub access_token : AccessClaims → Option String
  -- `url.URL.String` after `code` and `state` were set in the query of the given URL
  pub with_code : String → String → String → String
  pub registration_open : Bool

-- Times are seconds. A request reads the clock as one instant, and draws one random token and one
-- database identifier at most.
pub record Moment : Type 0 where
  pub now : ℕ
  -- crypto.RandomToken, unless the source of randomness fails
  pub random : Option String
  -- gen_random_uuid()
  pub uuid : String
  -- port.PasswordHasher.Hash, unless it fails
  pub hash_password : String → Option String
  -- port.CaptchaVerifier.Verify: the token, the address, and the error if there is one
  pub captcha : String → String → Option Error
  -- Whether the call fails outside the program; then it has no effect.
  pub fails : Op → Bool
