-- ===== src/Domain/UserStats.antt =====
-- internal/domain/admin.go: what the administration lists and counts
use kde_auth.Prelude.{ℕ, String, Bool, Option, List, ◌||◌}

pub record ClientUserCount : Type 0 where
  pub client_id : String
  pub name : String
  pub count : ℕ

pub record UserStats : Type 0 where
  pub total : ℕ
  pub pending : ℕ
  pub active : ℕ
  pub suspended : ℕ
  pub verified : ℕ
  pub unverified : ℕ
  pub created_last_7_days : ℕ
  pub created_last_30_days : ℕ
  pub by_client : List ClientUserCount

pub record UserActivityStats : Type 0 where
  pub has_active_session : Bool
  pub has_active_refresh_token : Bool
  pub session_count : ℕ
  pub last_session_at : Option ℕ

unfoldable pub is_connected : UserActivityStats → Bool
is_connected s = s.has_active_session || s.has_active_refresh_token

-- A limit or an offset that is negative in the source is 0 here; both are read as 0 there.
pub record UserListFilter : Type 0 where
  pub query : String
  pub status : String
  pub role : String
  pub client_id : String
  pub limit : ℕ
  pub offset : ℕ
