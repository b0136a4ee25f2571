-- ===== src/Store/Tokens/Verifications.antt =====
-- The email verification tokens of token_repo.go
use kde_auth.Prelude.{
  ℕ, String, Bool, none, some, is_some, [], ◌∷◌, ◌++◌, ◌&&◌, not, ◌==◌, ltb, find, exists,
  update_where,
}
use kde_auth.Domain.Errors.{ok, internal, invalid_token}
use kde_auth.Domain.Token.{EmailVerificationToken}
use kde_auth.Port.{Moment, verification_create, verification_consume}
use kde_auth.State.{VerificationRow}
use kde_auth.Exec.{Exec, pure, gets, transaction, select_row, write, guard, ◌>>=◌, ◌>>◌}
use kde_auth.Store.Tokens.{null_if_empty, coalesce}

abbrev pub verification_hash : String → VerificationRow → Bool
verification_hash h r = r.token_hash == h

abbrev pub verification_row : EmailVerificationToken → String → VerificationRow
verification_row token h = record {
  token_hash = h;
  user_id = token.user_id;
  email = null_if_empty token.email;
  expires_at = token.expires_at;
  used_at = none;
}

abbrev pub verification_of : VerificationRow → EmailVerificationToken
verification_of r = record {
  token = "";
  user_id = r.user_id;
  email = coalesce r.email;
  expires_at = r.expires_at;
}

abbrev pub usable_verification : ℕ → VerificationRow → Bool
usable_verification now r = not (is_some r.used_at) && ltb now r.expires_at

abbrev pub use_verification : ℕ → VerificationRow → VerificationRow
use_verification now r = record r { used_at = some now }

module _ (at : Moment) where
  unfoldable pub create_email_verification_token : EmailVerificationToken → String → Exec (Unit {0})
  create_email_verification_token token h = transaction at verification_create (do
    taken ← gets (λ s. ok (exists (verification_hash h) s.verifications))
    guard (not taken) internal
    write (λ s. record s { verifications = s.verifications ++ verification_row token h ∷ [] }))

  unfoldable pub consume_email_verification_token : String → ℕ → Exec EmailVerificationToken
  consume_email_verification_token h now = transaction at verification_consume (do
    row ← select_row (λ s. find (verification_hash h) s.verifications)
    guard (usable_verification now row) invalid_token
    write (λ s. record s {
      verifications = update_where (verification_hash h) (use_verification now) s.verifications;
    })
    pure (verification_of row))
