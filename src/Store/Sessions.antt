-- ===== src/Store/Sessions.antt =====
-- internal/adapter/postgres/session_repo.go
use kde_auth.Prelude.{
  ℕ, String, Bool, Option, none, some, is_some, [], ◌∷◌, ◌++◌, ◌&&◌, not, ◌==◌, ltb, find, exists,
  update_where,
}
use kde_auth.Domain.Errors.{ok, internal}
use kde_auth.Domain.User.{Session}
use kde_auth.Port.{Moment, sessions_create, sessions_by_hash, sessions_revoke, sessions_revoke_all}
use kde_auth.State.{SessionRow}
use kde_auth.Exec.{Exec, gets, transaction, select_row, write, guard, ◌>>=◌, ◌>>◌}

abbrev pub session_hash : String → SessionRow → Bool
session_hash h r = r.token_hash == h

-- revoked_at IS NULL AND expires_at > at
abbrev pub live_session : ℕ → SessionRow → Bool
live_session now r = not (is_some r.revoked_at) && ltb now r.session.expires_at

abbrev pub session_of : Option SessionRow → Option Session
session_of none = none
session_of (some r) = some r.session

abbrev pub revoke_session : ℕ → SessionRow → SessionRow
revoke_session now r = record r { revoked_at = some now }

-- The revoking statements touch the rows that are not revoked yet.
abbrev pub open_session_of : String → SessionRow → Bool
open_session_of id r = r.session.user_id == id && not (is_some r.revoked_at)

module _ (at : Moment) where
  abbrev pub session_row : Session → String → SessionRow
  session_row session h = record {
    token_hash = h;
    session = record session { id = at.uuid };
    revoked_at = none;
    created_at = at.now;
  }

  unfoldable pub create : Session → String → Exec (Unit {0})
  create session h = transaction at sessions_create (do
    taken ← gets (λ s. ok (exists (session_hash h) s.sessions))
    guard (not taken) internal
    write (λ s. record s { sessions = s.sessions ++ session_row session h ∷ [] }))

  unfoldable pub by_token_hash : String → ℕ → Exec Session
  by_token_hash h now =
      transaction at sessions_by_hash (
        select_row
          (λ s. session_of (find (λ r. session_hash h r && live_session now r) s.sessions)))

  unfoldable pub revoke : String → ℕ → Exec (Unit {0})
  revoke h now = transaction at sessions_revoke (
      write (λ s. record s {
        sessions =
            update_where (λ r. session_hash h r && not (is_some r.revoked_at)) (revoke_session now)
              s.sessions;
      }))

  unfoldable pub revoke_all_for_user : String → ℕ → Exec (Unit {0})
  revoke_all_for_user id now = transaction at sessions_revoke_all (
      write (λ s. record s {
        sessions = update_where (open_session_of id) (revoke_session now) s.sessions;
      }))
