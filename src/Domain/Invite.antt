-- ===== src/Domain/Invite.antt =====
-- internal/domain/client.go: invites
use kde_auth.Prelude.{ℕ, String, Bool, false, Option, is_some, ◌||◌, ltb, if◌then◌else◌}

pub record Invite : Type 0 where
  pub id : String
  pub token : String
  pub client_id : String
  pub email : String
  pub created_by : String
  pub expires_at : ℕ
  pub used_at : Option ℕ
  pub revoked_at : Option ℕ
  pub created_at : ℕ

unfoldable pub is_usable : Invite → ℕ → Bool
is_usable i at = if is_some i.used_at || is_some i.revoked_at then false else ltb at i.expires_at
