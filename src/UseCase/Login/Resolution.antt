-- ===== src/UseCase/Login/Resolution.antt =====
-- What a session token that resolves to a user stands for.
use kde_auth.Prelude.{
  String, ◌≡◌, false, ◌&&◌, Option, none, some, inl, inr, Option-cases, find, ◌==◌, arith,
}
use kde_auth.Domain.Errors.{ok, err, unauthorized}
use kde_auth.Domain.User.{User, can_authorize}
use kde_auth.Port.{Deployment, Moment, sessions_by_hash, users_by_id}
use kde_auth.State.{State, SessionRow}
use kde_auth.Exec.{◌>>=◌}
use kde_auth.Exec.Reads.{Reads, reads_rules}
use kde_auth.Store.Users
use kde_auth.Store.Users.{has_id}
use kde_auth.Store.Sessions
use kde_auth.Store.Sessions.{session_hash, live_session}
use kde_auth.UseCase.Login.{resolve_session}

module _ (dep : Deployment) (at : Moment) (session_token : String) where
  pub resolve_session-Reads : Reads (resolve_session dep at session_token)
  unfolding resolve_session Sessions.by_token_hash Users.by_id
  resolve_session-Reads = search reads_rules depth 12

  abbrev pub live_row : State → Option SessionRow
  live_row s =
      find (λ r. session_hash (dep.hash_token session_token) r && live_session at.now r) s.sessions

  pub resolve_session_ok :
      (s : State) (user : User)
      → (resolve_session dep at session_token s).0 ≡ ok user
      → (row : SessionRow) × (live_row s ≡ some row)
        × (find (has_id row.session.user_id) s.users ≡ some user)
        × (can_authorize user ≡ ok tt)
  unfolding resolve_session Sessions.by_token_hash Users.by_id ◌>>=◌
  resolve_session_ok s user h = elim (Option-cases (live_row s)) [
    | inl missing ↦ absurd (ground arith)
    | inr (row, found) ↦ (row, found, ground arith, ground arith)
  ]

  pub resolve_session-run :
      (s : State) (row : SessionRow) (user : User)
      → (session_token == "") ≡ false
      → at.fails sessions_by_hash ≡ false
      → at.fails users_by_id ≡ false
      → live_row s ≡ some row
      → find (has_id row.session.user_id) s.users ≡ some user
      → can_authorize user ≡ ok tt
      → resolve_session dep at session_token s ≡ (ok user, s)
  unfolding resolve_session Sessions.by_token_hash Users.by_id ◌>>=◌
  resolve_session-run s row user given f₁ f₂ found known allowed = ground arith

  -- No live session, or a user who may not authorize: the token resolves to nobody.
  pub resolve_session-dead :
      (s : State)
      → live_row s ≡ none
      → (resolve_session dep at session_token s).0 ≡ err unauthorized
  unfolding resolve_session Sessions.by_token_hash Users.by_id ◌>>=◌
  resolve_session-dead s missing = ground arith
