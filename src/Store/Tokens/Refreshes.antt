-- ===== src/Store/Tokens/Refreshes.antt =====
-- The refresh tokens of token_repo.go
pub mod Rotation
use kde_auth.Prelude.{
  ℕ, String, Bool, Option, none, some, is_some, List, [], ◌∷◌, ◌++◌, ◌&&◌, ◌||◌, not, ◌==◌, ltb,
  find, exists, update_where,
}
use kde_auth.Domain.Errors.{Result, ok, internal, invalid_grant}
use kde_auth.Domain.Token.{RefreshToken}
use kde_auth.Port.{Moment, refresh_create, refresh_consume, refresh_revoke, refresh_revoke_all}
use kde_auth.State.{State, RefreshRow}
use kde_auth.Exec.{Exec, pure, gets, transaction, select_row, write, guard, ◌>>=◌, ◌>>◌}

abbrev pub refresh_hash : String → RefreshRow → Bool
refresh_hash h r = r.token_hash == h

abbrev pub refresh_row : RefreshToken → String → RefreshRow
refresh_row token h = record {
  token_hash = h;
  user_id = token.user_id;
  client_id = token.client_id;
  scope = token.scope;
  expires_at = token.expires_at;
  revoked_at = none;
}

abbrev pub refresh_of : RefreshRow → RefreshToken
refresh_of r = record {
  token = "";
  user_id = r.user_id;
  client_id = r.client_id;
  scope = r.scope;
  expires_at = r.expires_at;
}

abbrev pub usable_refresh : ℕ → RefreshRow → Bool
usable_refresh now r = not (is_some r.revoked_at) && ltb now r.expires_at

abbrev pub revoke_refresh_row : ℕ → RefreshRow → RefreshRow
revoke_refresh_row now r = record r { revoked_at = some now }

abbrev pub open_refresh_of : String → RefreshRow → Bool
open_refresh_of id r = r.user_id == id && not (is_some r.revoked_at)

module _ (at : Moment) where
  unfoldable pub create_refresh_token : RefreshToken → String → Exec (Unit {0})
  create_refresh_token token h = transaction at refresh_create (do
    taken ← gets (λ s. ok (exists (refresh_hash h) s.refreshes))
    guard (not taken) internal
    write (λ s. record s { refreshes = s.refreshes ++ refresh_row token h ∷ [] }))

  unfoldable pub consume_refresh_token : String → ℕ → Exec RefreshToken
  consume_refresh_token h now = transaction at refresh_consume (do
    row ← select_row (λ s. find (refresh_hash h) s.refreshes)
    guard (usable_refresh now row) invalid_grant
    write (λ s. record s {
      refreshes = update_where (refresh_hash h) (revoke_refresh_row now) s.refreshes;
    })
    pure (refresh_of row))

  unfoldable pub revoke_refresh_token : String → ℕ → Exec (Unit {0})
  revoke_refresh_token h now = transaction at refresh_revoke (
      write (λ s. record s {
        refreshes =
            update_where (λ r. refresh_hash h r && not (is_some r.revoked_at))
              (revoke_refresh_row now) s.refreshes;
      }))

  unfoldable pub revoke_all_refresh_tokens_for_user : String → ℕ → Exec (Unit {0})
  revoke_all_refresh_tokens_for_user id now = transaction at refresh_revoke_all (
      write (λ s. record s {
        refreshes = update_where (open_refresh_of id) (revoke_refresh_row now) s.refreshes;
      }))
