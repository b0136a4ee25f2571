-- ===== src/Domain/User.antt =====
-- internal/domain/user.go, user_email.go, admin.go, session.go
use kde_auth.Prelude.{ℕ, String, Bool, true, false, Option, is_some, ltb, not, ◌==◌, if◌then◌else◌}
use kde_auth.Domain.Errors.{Result, ok, err, forbidden, ◌>>◌}

pub data Role : Type 0 where
  user admin : Role

-- The status is a text in the source; `other` is any text but the three.
pub data UserStatus : Type 0 where
  pending active suspended : UserStatus
  other : String → UserStatus

pub record User : Type 0 where
  pub id : String
  pub email : String
  pub password_hash : String
  pub role : Role
  pub status : UserStatus
  pub email_verified_at : Option ℕ
  pub created_at : ℕ
  pub updated_at : ℕ

unfoldable pub is_email_verified : User → Bool
is_email_verified u = is_some u.email_verified_at

abbrev pub is_suspended : UserStatus → Bool
is_suspended suspended = true
is_suspended _ = false

unfoldable pub can_authenticate : User → Result (Unit {0})
can_authenticate u = if is_suspended u.status then err forbidden else ok tt

unfoldable pub can_authorize : User → Result (Unit {0})
unfolding can_authenticate is_email_verified
can_authorize u = do can_authenticate u; if not (is_email_verified u) then err forbidden else ok tt

abbrev is_admin_role : Role → Bool
is_admin_role admin = true
is_admin_role user = false

unfoldable pub is_admin : User → Bool
is_admin u = is_admin_role u.role

abbrev pub status_text : UserStatus → String
status_text pending = "pending"
status_text active = "active"
status_text suspended = "suspended"
status_text (other text) = text

abbrev pub status_of : String → UserStatus
status_of text =
    if text == "pending"
    then pending
    else if text == "active"
    then active
    else if text == "suspended"
    then suspended
    else other text

abbrev pub role_text : Role → String
role_text user = "user"
role_text admin = "admin"

pub data EmailRole : Type 0 where
  primary secondary : EmailRole

abbrev pub is_primary : EmailRole → Bool
is_primary primary = true
is_primary secondary = false

abbrev pub is_secondary : EmailRole → Bool
is_secondary r = not (is_primary r)

pub record UserEmail : Type 0 where
  pub id : String
  pub user_id : String
  pub email : String
  pub role : EmailRole
  pub verified_at : Option ℕ
  pub created_at : ℕ
  pub updated_at : ℕ

unfoldable pub is_verified : UserEmail → Bool
is_verified e = is_some e.verified_at

unfoldable pub is_pending : UserEmail → Bool
is_pending e = not (is_some e.verified_at)

pub record Session : Type 0 where
  pub id : String
  pub user_id : String
  pub expires_at : ℕ

unfoldable pub is_expired : Session → ℕ → Bool
is_expired s at = not (ltb at s.expires_at)

pub record UserAppAccess : Type 0 where
  pub user_id : String
  pub client_id : String
  pub entry_domain : String
  pub first_seen_at : ℕ
  pub last_seen_at : ℕ
