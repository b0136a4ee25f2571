-- ===== src/Store/Tokens/Resets.antt =====
-- The password reset tokens of token_repo.go
use kde_auth.Prelude.{
  ℕ, String, Bool, none, some, is_some, [], ◌∷◌, ◌++◌, ◌&&◌, not, ◌==◌, ltb, find, exists,
  update_where,
}
use kde_auth.Domain.Errors.{ok, internal, invalid_token}
use kde_auth.Domain.Token.{PasswordResetToken}
use kde_auth.Port.{Moment, reset_create, reset_consume}
use kde_auth.State.{ResetRow}
use kde_auth.Exec.{Exec, pure, gets, transaction, select_row, write, guard, ◌>>=◌, ◌>>◌}

abbrev pub reset_hash : String → ResetRow → Bool
reset_hash h r = r.token_hash == h

abbrev pub reset_row : PasswordResetToken → String → ResetRow
reset_row token h = record {
  token_hash = h;
  user_id = token.user_id;
  expires_at = token.expires_at;
  used_at = none;
}

abbrev pub reset_of : ResetRow → PasswordResetToken
reset_of r = record { token = ""; user_id = r.user_id; expires_at = r.expires_at }

abbrev pub usable_reset : ℕ → ResetRow → Bool
usable_reset now r = not (is_some r.used_at) && ltb now r.expires_at

abbrev pub use_reset : ℕ → ResetRow → ResetRow
use_reset now r = record r { used_at = some now }

module _ (at : Moment) where
  unfoldable pub create_password_reset_token : PasswordResetToken → String → Exec (Unit {0})
  create_password_reset_token token h = transaction at reset_create (do
    taken ← gets (λ s. ok (exists (reset_hash h) s.resets))
    guard (not taken) internal
    write (λ s. record s { resets = s.resets ++ reset_row token h ∷ [] }))

  unfoldable pub consume_password_reset_token : String → ℕ → Exec PasswordResetToken
  consume_password_reset_token h now = transaction at reset_consume (do
    row ← select_row (λ s. find (reset_hash h) s.resets)
    guard (usable_reset now row) invalid_token
    write (λ s. record s { resets = update_where (reset_hash h) (use_reset now) s.resets })
    pure (reset_of row))
