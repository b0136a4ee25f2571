-- ===== src/Domain/Token.antt =====
-- internal/domain/token.go: the values behind the one-time tokens
use kde_auth.Prelude.{ℕ, String, Option}

pub record AuthorizationCode : Type 0 where
  pub code : String
  pub user_id : String
  pub client_id : String
  pub redirect_uri : String
  pub scope : String
  pub code_challenge : String
  pub code_challenge_method : String
  pub expires_at : ℕ

pub record RefreshToken : Type 0 where
  pub token : String
  pub user_id : String
  pub client_id : String
  pub scope : String
  pub expires_at : ℕ

pub record EmailVerificationToken : Type 0 where
  pub token : String
  pub user_id : String
  pub email : String
  pub expires_at : ℕ

pub record PasswordResetToken : Type 0 where
  pub token : String
  pub user_id : String
  pub expires_at : ℕ

pub record RegistrationTicket : Type 0 where
  pub token : String
  pub client_id : String
  pub expires_at : ℕ
  pub used_at : Option ℕ
