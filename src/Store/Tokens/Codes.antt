-- ===== src/Store/Tokens/Codes.antt =====
-- The authorization codes of token_repo.go
pub mod Consumption
use kde_auth.Prelude.{
  ℕ, String, Bool, Option, none, some, is_some, List, [], ◌∷◌, ◌++◌, ◌&&◌, ◌||◌, not, ◌==◌, ltb,
  find, exists, update_where,
}
use kde_auth.Domain.Errors.{Result, ok, internal, invalid_grant}
use kde_auth.Domain.Token.{AuthorizationCode}
use kde_auth.Port.{Moment, codes_create, codes_consume}
use kde_auth.State.{State, CodeRow}
use kde_auth.Exec.{Exec, pure, gets, transaction, select_row, write, guard, ◌>>=◌, ◌>>◌}
use kde_auth.Store.Tokens.{null_if_empty, coalesce}

abbrev pub code_hash : String → CodeRow → Bool
code_hash h r = r.code_hash == h

abbrev pub code_row : AuthorizationCode → String → CodeRow
code_row code h = record {
  code_hash = h;
  user_id = code.user_id;
  client_id = code.client_id;
  redirect_uri = code.redirect_uri;
  scope = code.scope;
  code_challenge = null_if_empty code.code_challenge;
  code_challenge_method = null_if_empty code.code_challenge_method;
  expires_at = code.expires_at;
  used_at = none;
}

-- The columns that are read back; the raw code is not stored.
abbrev pub code_of : CodeRow → AuthorizationCode
code_of r = record {
  code = "";
  user_id = r.user_id;
  client_id = r.client_id;
  redirect_uri = r.redirect_uri;
  scope = r.scope;
  code_challenge = coalesce r.code_challenge;
  code_challenge_method = coalesce r.code_challenge_method;
  expires_at = r.expires_at;
}

-- used_at IS NULL, and `at.Before(expires_at)`
abbrev pub usable_code : ℕ → CodeRow → Bool
usable_code now r = not (is_some r.used_at) && ltb now r.expires_at

abbrev pub use_code : ℕ → CodeRow → CodeRow
use_code now r = record r { used_at = some now }

module _ (at : Moment) where
  unfoldable pub create_authorization_code : AuthorizationCode → String → Exec (Unit {0})
  create_authorization_code code h = transaction at codes_create (do
    taken ← gets (λ s. ok (exists (code_hash h) s.codes))
    guard (not taken) internal
    write (λ s. record s { codes = s.codes ++ code_row code h ∷ [] }))

  unfoldable pub consume_authorization_code : String → ℕ → Exec AuthorizationCode
  consume_authorization_code h now = transaction at codes_consume (do
    row ← select_row (λ s. find (code_hash h) s.codes)
    guard (usable_code now row) invalid_grant
    write (λ s. record s { codes = update_where (code_hash h) (use_code now) s.codes })
    pure (code_of row))
