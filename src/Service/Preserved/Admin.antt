-- ===== src/Service/Preserved/Admin.antt =====
-- Invites and the administration keep what the repository calls keep.
use kde_auth.Prelude.{String}
use kde_auth.Domain.Client.{TokenEndpointAuthMethod}
use kde_auth.Domain.User.{User, UserStatus}
use kde_auth.Port.{Deployment, Moment}
use kde_auth.State.{State}
use kde_auth.Exec.Keeps.{Keeps, keeps_rules, Keeps-write}
use kde_auth.Service.Preserved.{Preserved}
use kde_auth.Service.Preserved.Calls.{call_rules, read_client-Keeps}
use kde_auth.Service.Preserved.SignIn.{resolve-Keeps}
use kde_auth.Service.Preserved.Accounts.{grant-Keeps, send_link-Keeps}
use kde_auth.UseCase.Captcha.{verify_captcha}
use kde_auth.UseCase.Invites.{
  RegisterViaInviteInput, send_invite, create_invite, revoke_invite, load_usable, accept_existing,
  register_via_invite,
}
use kde_auth.UseCase.AdminUsers.{revoke_access, set_status, delete_user, revoke_sessions}
use kde_auth.UseCase.AdminClients.{
  CreateClientInput, require_absent, new_secret, parse_client, create_client, set_access_mode,
  update_redirect_uris,
}

module _ {P : State → Type 0} (dep : Deployment) (at : Moment) (k : Preserved dep at P) where
  send_invite-Keeps : (to app url : String) → Keeps P (send_invite at to app url)
  unfolding send_invite
  send_invite-Keeps to app url = search (keeps_rules, Keeps-write, k.ignores.outbox)

  pub create_invite-Keeps :
      (actor : User) (client_id email : String)
      → Keeps P (create_invite dep at actor client_id email)
  unfolding create_invite
  create_invite-Keeps actor client_id email =
      search (call_rules, k.ignores, send_invite-Keeps) depth 16

  pub revoke_invite-Keeps :
      (actor : User) (invite_id : String) → Keeps P (revoke_invite dep at actor invite_id)
  unfolding revoke_invite
  revoke_invite-Keeps actor invite_id = search (call_rules, k.ignores) depth 8

  load_usable-Keeps : (raw : String) → Keeps P (load_usable dep at raw)
  unfolding load_usable
  load_usable-Keeps raw = search (call_rules, k.ignores) depth 12

  pub accept-Keeps :
      (raw session_token : String) → Keeps P (accept_existing dep at raw session_token)
  unfolding accept_existing
  accept-Keeps raw session_token =
      search
        (call_rules, k.ignores, load_usable-Keeps, resolve-Keeps dep at k, grant-Keeps dep at k)
        depth 12

  pub register_invite-Keeps :
      (input : RegisterViaInviteInput) → Keeps P (register_via_invite dep at input)
  unfolding register_via_invite verify_captcha
  register_invite-Keeps input =
      search
        (
          call_rules,
          k.ignores,
          load_usable-Keeps,
          k.create_user,
          grant-Keeps dep at k,
          send_link-Keeps dep at k,
        )
        depth 18

  revoke_access-Keeps : (id : String) → Keeps P (revoke_access dep at id)
  unfolding revoke_access
  revoke_access-Keeps id = search (call_rules, k.ignores, k.revoke_refreshes)

  pub set_status-Keeps :
      (actor : User) (id : String) (status : UserStatus)
      → Keeps P (set_status dep at actor id status)
  unfolding set_status
  set_status-Keeps actor id status =
      search (keeps_rules, k.set_status, revoke_access-Keeps) depth 12

  pub delete_user-Keeps : (actor : User) (id : String) → Keeps P (delete_user dep at actor id)
  unfolding delete_user
  delete_user-Keeps actor id = search (call_rules, k.ignores, k.delete_user) depth 12

  pub revoke_sessions-Keeps :
      (actor : User) (id : String) → Keeps P (revoke_sessions dep at actor id)
  unfolding revoke_sessions
  revoke_sessions-Keeps actor id = search (call_rules, k.ignores, revoke_access-Keeps) depth 12

  parse_client-Keeps : (input : CreateClientInput) → Keeps P (parse_client dep at input)
  unfolding parse_client
  parse_client-Keeps input = search keeps_rules depth 12

  new_secret-Keeps : (m : TokenEndpointAuthMethod) → Keeps P (new_secret dep at m)
  unfolding new_secret
  new_secret-Keeps m = search keeps_rules depth 8

  require_absent-Keeps : (client_id : String) → Keeps P (require_absent dep at client_id)
  unfolding require_absent
  require_absent-Keeps client_id = record { at = (read_client-Keeps at k.ignores client_id).at }

  pub create_client-Keeps :
      (actor : User) (input : CreateClientInput) → Keeps P (create_client dep at actor input)
  unfolding create_client
  create_client-Keeps actor input =
      search (call_rules, k.ignores, parse_client-Keeps, require_absent-Keeps, new_secret-Keeps)
        depth 14

  pub set_mode-Keeps :
      (actor : User) (client_id mode : String)
      → Keeps P (set_access_mode dep at actor client_id mode)
  unfolding set_access_mode
  set_mode-Keeps actor client_id mode = search (call_rules, k.ignores) depth 8

  pub redirects-Keeps :
      (actor : User) (client_id uris pkg : String)
      → Keeps P (update_redirect_uris dep at actor client_id uris pkg)
  unfolding update_redirect_uris
  redirects-Keeps actor client_id uris pkg = search (call_rules, k.ignores) depth 14
