-- ===== src/Service/Preserved/Steps.antt =====
-- Whatever the requests, in any order, what the repository calls keep at each moment is kept.
use kde_auth.Prelude.{ℕ, List, [], ◌∷◌, All}
use kde_auth.Port.{Deployment, Moment}
use kde_auth.State.{State}
use kde_auth.Service.{
  Request, log_in, log_out, authorization, token, register_ticket, register_link, registration,
  verification, reset_request, password_reset, password_change, email_addition, email_cancellation,
  email_deletion, invite_creation, invite_revocation, invite_acceptance, invite_registration,
  status_change, user_deletion, session_revocation, client_creation, mode_change, redirect_change,
  step, run,
}
use kde_auth.Service.Preserved.{Preserved}
use kde_auth.Service.Preserved.SignIn.{
  login-Keeps, logout-Keeps, authorize-Keeps, exchange_token-Keeps,
}
use kde_auth.Service.Preserved.Accounts.{
  issue_ticket-Keeps, link-Keeps, register-Keeps, verify_email-Keeps, request_reset-Keeps,
  reset_password-Keeps, change_password-Keeps, add_email-Keeps, cancel_email-Keeps,
  delete_email-Keeps,
}
use kde_auth.Service.Preserved.Admin.{
  create_invite-Keeps, revoke_invite-Keeps, accept-Keeps, register_invite-Keeps, set_status-Keeps,
  delete_user-Keeps, revoke_sessions-Keeps, create_client-Keeps, set_mode-Keeps, redirects-Keeps,
}

module _ (P : State → Type 0) (dep : Deployment) (ttl : ℕ) where
  pub step-keeps :
      (at : Moment) (r : Request) (s : State) → Preserved dep at P → P s → P (step dep ttl at r s)
  unfolding step
  step-keeps at (log_in input) s k p = (login-Keeps dep at k input ttl).at s p
  step-keeps at (log_out session_token) s k p = (logout-Keeps dep at k session_token).at s p
  step-keeps at (authorization input) s k p = (authorize-Keeps dep at k input).at s p
  step-keeps at (token input) s k p = (exchange_token-Keeps dep at k input).at s p
  step-keeps at (register_ticket id secret) s k p = (issue_ticket-Keeps dep at k id secret).at s p
  step-keeps at (register_link id) s k p = (link-Keeps dep at k id).at s p
  step-keeps at (registration input) s k p = (register-Keeps dep at k input).at s p
  step-keeps at (verification raw) s k p = (verify_email-Keeps dep at k raw).at s p
  step-keeps at (reset_request input) s k p = (request_reset-Keeps dep at k input).at s p
  step-keeps at (password_reset input) s k p = (reset_password-Keeps dep at k input).at s p
  step-keeps at (password_change input) s k p = (change_password-Keeps dep at k input).at s p
  step-keeps at (email_addition input) s k p = (add_email-Keeps dep at k input).at s p
  step-keeps at (email_cancellation id) s k p = (cancel_email-Keeps dep at k id).at s p
  step-keeps at (email_deletion id email) s k p = (delete_email-Keeps dep at k id email).at s p
  step-keeps at (invite_creation actor id email) s k p =
      (create_invite-Keeps dep at k actor id email).at s p
  step-keeps at (invite_revocation actor id) s k p = (revoke_invite-Keeps dep at k actor id).at s p
  step-keeps at (invite_acceptance raw session_token) s k p =
      (accept-Keeps dep at k raw session_token).at s p
  step-keeps at (invite_registration input) s k p = (register_invite-Keeps dep at k input).at s p
  step-keeps at (status_change actor id status) s k p =
      (set_status-Keeps dep at k actor id status).at s p
  step-keeps at (user_deletion actor id) s k p = (delete_user-Keeps dep at k actor id).at s p
  step-keeps at (session_revocation actor id) s k p =
      (revoke_sessions-Keeps dep at k actor id).at s p
  step-keeps at (client_creation actor input) s k p =
      (create_client-Keeps dep at k actor input).at s p
  step-keeps at (mode_change actor id mode) s k p = (set_mode-Keeps dep at k actor id mode).at s p
  step-keeps at (redirect_change actor id uris pkg) s k p =
      (redirects-Keeps dep at k actor id uris pkg).at s p

  pub run-keeps :
      (history : List (Moment × Request)) (s : State)
      → All (λ c. Preserved dep c.0 P) history
      → P s
      → P (run dep ttl history s)
  unfolding run
  run-keeps [] s ks p = p
  run-keeps ((at, r) ∷ rest) s ks p = run-keeps rest _ ks.1 (step-keeps at r s ks.0 p)
