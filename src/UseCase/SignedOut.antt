-- ===== src/UseCase/SignedOut.antt =====
-- internal/usecase: what the revoking calls of a password change and a suspension leave.
use kde_auth.Prelude.{
  ℕ, String, List, [], ◌∷◌, ◌≡◌, refl, true, Bool-cases, is_some, inl, inr, All, update_where,
  arith, eq_iff,
}
use kde_auth.Domain.Errors.{ok}
use kde_auth.Port.{Deployment, Moment}
use kde_auth.State.{State, SessionRow, RefreshRow}
use kde_auth.Exec.{◌>>=◌}
use kde_auth.Store.Sessions
use kde_auth.Store.Sessions.{open_session_of, revoke_session}
use kde_auth.Store.Tokens.Refreshes.{
  open_refresh_of, revoke_refresh_row, revoke_all_refresh_tokens_for_user,
}
use kde_auth.UseCase.AdminUsers.{revoke_access}

-- Every session and every refresh token of the user is revoked.
pub record SignedOut (id : String) (s : State) : Type 0 where
  pub sessions : All (λ r. r.session.user_id ≡ id → is_some r.revoked_at ≡ true) s.sessions
  pub refreshes : All (λ r. r.user_id ≡ id → is_some r.revoked_at ≡ true) s.refreshes

revoked-sessions :
    (id : String) (now : ℕ) (rows : List SessionRow)
    → All
        (λ r. r.session.user_id ≡ id → is_some r.revoked_at ≡ true)
        (update_where (open_session_of id) (revoke_session now) rows)
revoked-sessions id now [] = tt
revoked-sessions id now (r ∷ rows) = elim (Bool-cases (open_session_of id r)) [
  | inl e ↦ (rw e (λ h. refl), revoked-sessions id now rows)
  | inr e ↦ (
    rw e (λ h. ground (arith, e, (eq_iff r.session.user_id id).1 h)),
    revoked-sessions id now rows,
  )
]

revoked-refreshes :
    (id : String) (now : ℕ) (rows : List RefreshRow)
    → All
        (λ r. r.user_id ≡ id → is_some r.revoked_at ≡ true)
        (update_where (open_refresh_of id) (revoke_refresh_row now) rows)
revoked-refreshes id now [] = tt
revoked-refreshes id now (r ∷ rows) = elim (Bool-cases (open_refresh_of id r)) [
  | inl e ↦ (rw e (λ h. refl), revoked-refreshes id now rows)
  | inr e ↦
      (rw e (λ h. ground (arith, e, (eq_iff r.user_id id).1 h)), revoked-refreshes id now rows)
]

abbrev pub revoked : String → ℕ → State → State
revoked id now s = record s {
  sessions = update_where (open_session_of id) (revoke_session now) s.sessions;
  refreshes = update_where (open_refresh_of id) (revoke_refresh_row now) s.refreshes;
}

pub revoked-SignedOut : (id : String) (now : ℕ) (s : State) → SignedOut id (revoked id now s)
revoked-SignedOut id now s = record {
  sessions = revoked-sessions id now s.sessions;
  refreshes = revoked-refreshes id now s.refreshes;
}

module _ (dep : Deployment) (at : Moment) where
  pub revoke_access_ok :
      (id : String) (s s' : State)
      → revoke_access dep at id s ≡ (ok tt, s')
      → revoked id at.now s ≡ s'
  unfolding revoke_access Sessions.revoke_all_for_user revoke_all_refresh_tokens_for_user ◌>>=◌
  revoke_access_ok id s s' h = ground arith
