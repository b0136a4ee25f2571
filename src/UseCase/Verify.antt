-- ===== src/UseCase/Verify.antt =====
-- internal/usecase/register.go: VerifyEmail
pub mod Activation
use kde_auth.Prelude.{String, Bool, not, ◌==◌, if◌then◌else◌}
use kde_auth.Domain.Errors.{Error, Result, invalid_token}
use kde_auth.Domain.Token.{EmailVerificationToken}
use kde_auth.Port.{Deployment, Moment}
use kde_auth.Exec.{Exec, guard, if_not_found, ◌>>=◌, ◌>>◌}
use kde_auth.Store.Users
use kde_auth.Store.Emails
use kde_auth.Store.Tokens.Verifications.{consume_email_verification_token}

module _ (dep : Deployment) (at : Moment) where
  -- A token with an address verifies that one; any other, the primary address and the account.
  unfoldable pub apply_verification : EmailVerificationToken → Exec (Unit {0})
  apply_verification token =
      if not (token.email == "")
      then if_not_found invalid_token (Emails.mark_verified dep at token.user_id token.email)
      else Users.mark_email_verified dep at token.user_id

  unfoldable pub verify_email : String → Exec (Unit {0})
  verify_email raw_token = do
    guard (not (raw_token == "")) invalid_token
    token ←
        if_not_found invalid_token
          (consume_email_verification_token at (dep.hash_token raw_token) at.now)
    apply_verification token
