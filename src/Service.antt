-- ===== src/Service.antt =====
-- The requests that the handlers of internal/adapter/http/handler pass to the use cases, as one
-- data type; the service is a state that the requests change one after another.
pub mod Preserved
pub mod SingleUse
pub mod RefreshOnce
pub mod CodeFlow
use kde_auth.Prelude.{ℕ, String, List, [], ◌∷◌}
use kde_auth.Domain.User.{User, UserStatus}
use kde_auth.Port.{Deployment, Moment}
use kde_auth.State.{State}
use kde_auth.UseCase.Login.{LoginInput, login, logout}
use kde_auth.UseCase.Authorize.{AuthorizeInput, authorize}
use kde_auth.UseCase.Exchange.{TokenInput, exchange_token}
use kde_auth.UseCase.Register.{
  RegisterInput, issue_register_ticket, link_for_public_client, register_user,
}
use kde_auth.UseCase.Verify.{verify_email}
use kde_auth.UseCase.Passwords.{
  RequestResetInput, ResetInput, ChangeInput, request_password_reset, reset_password,
  change_password,
}
use kde_auth.UseCase.AccountEmails.{AddEmailInput, add_email, cancel_email, delete_email}
use kde_auth.UseCase.Invites.{
  RegisterViaInviteInput, create_invite, revoke_invite, accept_existing, register_via_invite,
}
use kde_auth.UseCase.AdminUsers.{set_status, delete_user, revoke_sessions}
use kde_auth.UseCase.AdminClients.{
  CreateClientInput, create_client, set_access_mode, update_redirect_uris,
}

-- The administrator of an admin request is the user that the session resolved to.
pub data Request : Type 0 where
  log_in : LoginInput → Request
  log_out : (session_token : String) → Request
  authorization : AuthorizeInput → Request
  token : TokenInput → Request
  register_ticket : (client_id client_secret : String) → Request
  register_link : (client_id : String) → Request
  registration : RegisterInput → Request
  verification : (raw_token : String) → Request
  reset_request : RequestResetInput → Request
  password_reset : ResetInput → Request
  password_change : ChangeInput → Request
  email_addition : AddEmailInput → Request
  email_cancellation : (user_id : String) → Request
  email_deletion : (user_id email : String) → Request
  invite_creation : (actor : User) → (client_id email : String) → Request
  invite_revocation : (actor : User) → (invite_id : String) → Request
  invite_acceptance : (raw_token session_token : String) → Request
  invite_registration : RegisterViaInviteInput → Request
  status_change : (actor : User) → (user_id : String) → UserStatus → Request
  user_deletion : (actor : User) → (user_id : String) → Request
  session_revocation : (actor : User) → (user_id : String) → Request
  client_creation : (actor : User) → CreateClientInput → Request
  mode_change : (actor : User) → (client_id mode : String) → Request
  redirect_change : (actor : User) → (client_id uris android_package : String) → Request

module _ (dep : Deployment) (session_ttl : ℕ) where
  -- The state after the request, whatever it answers.
  pub step : Moment → Request → State → State
  step at (log_in input) s = (login dep session_ttl at input s).1
  step at (log_out session_token) s = (logout dep at session_token s).1
  step at (authorization input) s = (authorize dep at input s).1
  step at (token input) s = (exchange_token dep at input s).1
  step at (register_ticket client_id secret) s = (issue_register_ticket dep at client_id secret s).1
  step at (register_link client_id) s = (link_for_public_client dep at client_id s).1
  step at (registration input) s = (register_user dep at input s).1
  step at (verification raw_token) s = (verify_email dep at raw_token s).1
  step at (reset_request input) s = (request_password_reset dep at input s).1
  step at (password_reset input) s = (reset_password dep at input s).1
  step at (password_change input) s = (change_password dep at input s).1
  step at (email_addition input) s = (add_email dep at input s).1
  step at (email_cancellation id) s = (cancel_email dep at id s).1
  step at (email_deletion id email) s = (delete_email dep at id email s).1
  step at (invite_creation actor client_id email) s =
      (create_invite dep at actor client_id email s).1
  step at (invite_revocation actor invite_id) s = (revoke_invite dep at actor invite_id s).1
  step at (invite_acceptance raw_token session_token) s =
      (accept_existing dep at raw_token session_token s).1
  step at (invite_registration input) s = (register_via_invite dep at input s).1
  step at (status_change actor id status) s = (set_status dep at actor id status s).1
  step at (user_deletion actor id) s = (delete_user dep at actor id s).1
  step at (session_revocation actor id) s = (revoke_sessions dep at actor id s).1
  step at (client_creation actor input) s = (create_client dep at actor input s).1
  step at (mode_change actor client_id mode) s = (set_access_mode dep at actor client_id mode s).1
  step at (redirect_change actor client_id uris pkg) s =
      (update_redirect_uris dep at actor client_id uris pkg s).1

  pub run : List (Moment × Request) → State → State
  run [] s = s
  run ((at, request) ∷ rest) s = run rest (step at request s)
