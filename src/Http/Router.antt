-- ===== src/Http/Router.antt =====
-- internal/adapter/http/server.go: NewRouter, as cmd/server/main.go builds it. The paths below
-- /admin stand in a router of their own, behind RequireAdmin. The favicon is left out.
use text.Mathlib.Text.{starts_with}
use kde_auth.Prelude.{String, Bool, true, false, List, [], ◌∷◌, ◌||◌, ◌==◌, if◌then◌else◌}
use kde_auth.Port.{Moment}
use kde_auth.State.{State}
use kde_auth.RateLimit.{Limiter}
use kde_auth.Http.{HttpRequest, Method, get, post, delete, Site, Response}
use kde_auth.Http.Handling.{Handler, respond}
use kde_auth.Http.Replies.{http_not_found, method_not_allowed}
use kde_auth.Http.SignIn.{Meanwhile, serve_login}
use kde_auth.Http.SignOut.{serve_authorize, serve_logout}
use kde_auth.Http.Tokens.{
  serve_token, serve_user_info, serve_change_password, emails_list, emails_add, emails_cancel,
  emails_delete,
}
use kde_auth.Http.Registration.{
  serve_ticket, serve_register, serve_verify_email, serve_forgot, serve_reset,
}
use kde_auth.Http.Invites.{serve_invite}
use kde_auth.Http.Documents.{serve_health, serve_discovery, serve_jwks}
use kde_auth.Http.Admin.{
  AdminHandler, require_admin, admin_set_status, admin_revoke_sessions, admin_delete_user,
}
use kde_auth.Http.Admin.Pages.{admin_dashboard, admin_users}
use kde_auth.Http.Admin.ClientPages.{
  admin_clients, admin_create_client, admin_set_access_mode, admin_update_redirect_uris,
}
use kde_auth.Http.Admin.InvitePages.{admin_invites, admin_create_invite, admin_revoke_invite}

-- The database and the two limiters of main.go.
pub record Service : Type 0 where
  pub state : State
  pub logins : Limiter
  pub additions : Limiter

abbrev pub ServiceHandler : Type 0
ServiceHandler = Service → Response × Service

abbrev pub same_method : Method → Method → Bool
same_method get get = true
same_method post post = true
same_method delete delete = true
same_method _ _ = false

-- Of the routes of a path the one of the method; chi answers 405 to another method of a path that
-- is there, and 404 to any other path.
abbrev pub routed :
    {A : Type 0} → (missing refused : A) → List (Method × String × A) → Method → String → A
routed missing refused [] method path = missing
routed missing refused ((m, p, a) ∷ routes) method path =
    let here = routed refused refused routes method path in
    let there = routed missing refused routes method path in
    if p == path then if same_method m method then a else here else there

module _ (site : Site) (others : Meanwhile) (link at : Moment) where
  abbrev on_state : Handler → ServiceHandler
  on_state handler s =
      let (response, state) = handler s.state in (response, record s { state = state })

  abbrev constant : Response → ServiceHandler
  constant response = on_state (respond response)

  abbrev on_login : HttpRequest → ServiceHandler
  on_login r s =
      let (response, w) = serve_login site others link at r (s.state, s.logins) in
      (response, record s { state = w.0; logins = w.1 })

  abbrev on_addition : HttpRequest → ServiceHandler
  on_addition r s =
      let (response, w) = emails_add site at r (s.state, s.additions) in
      (response, record s { state = w.0; additions = w.1 })

  abbrev pub routes : HttpRequest → List (Method × String × ServiceHandler)
  routes r =
      (get, "/health", constant (serve_health site))
      ∷ (get, "/.well-known/openid-configuration", constant (serve_discovery site))
      ∷ (get, "/jwks", constant (serve_jwks site))
      ∷ (post, "/register/ticket", on_state (serve_ticket site at r))
      ∷ (get, "/register", on_state (serve_register site at r))
      ∷ (post, "/register", on_state (serve_register site at r))
      ∷ (get, "/login", on_login r)
      ∷ (post, "/login", on_login r)
      ∷ (get, "/verify-email", on_state (serve_verify_email site at r))
      ∷ (get, "/logout", on_state (serve_logout site at r))
      ∷ (post, "/logout", on_state (serve_logout site at r))
      ∷ (get, "/forgot-password", on_state (serve_forgot site at r))
      ∷ (post, "/forgot-password", on_state (serve_forgot site at r))
      ∷ (get, "/reset-password", on_state (serve_reset site at r))
      ∷ (post, "/reset-password", on_state (serve_reset site at r))
      ∷ (post, "/account/password", on_state (serve_change_password site at r))
      ∷ (get, "/account/emails", on_state (emails_list site at r))
      ∷ (post, "/account/emails", on_addition r)
      ∷ (delete, "/account/emails", on_state (emails_delete site at r))
      ∷ (post, "/account/emails/cancel", on_state (emails_cancel site at r))
      ∷ (get, "/invite", on_state (serve_invite site at r))
      ∷ (post, "/invite", on_state (serve_invite site at r))
      ∷ (get, "/authorize", on_state (serve_authorize site at r))
      ∷ (post, "/token", on_state (serve_token site at r))
      ∷ (get, "/userinfo", on_state (serve_user_info site at r))
      ∷ []

  abbrev pub admin_routes : List (Method × String × AdminHandler)
  admin_routes =
      (get, "/admin", admin_dashboard site at)
      ∷ (get, "/admin/", admin_dashboard site at)
      ∷ (get, "/admin/users", admin_users site at)
      ∷ (post, "/admin/users/status", admin_set_status site at)
      ∷ (post, "/admin/users/revoke-sessions", admin_revoke_sessions site at)
      ∷ (post, "/admin/users/delete", admin_delete_user site at)
      ∷ (get, "/admin/clients", admin_clients site at)
      ∷ (post, "/admin/clients", admin_create_client site at)
      ∷ (post, "/admin/clients/access-mode", admin_set_access_mode site at)
      ∷ (post, "/admin/clients/redirect-uris", admin_update_redirect_uris site at)
      ∷ (get, "/admin/invites", admin_invites site at)
      ∷ (post, "/admin/invites", admin_create_invite site at)
      ∷ (post, "/admin/invites/revoke", admin_revoke_invite site at)
      ∷ []

  abbrev pub admin_missing : AdminHandler
  admin_missing actor r = respond http_not_found

  abbrev pub admin_refused : AdminHandler
  admin_refused actor r = respond method_not_allowed

  abbrev pub admin_route : Method → String → AdminHandler
  admin_route = routed admin_missing admin_refused admin_routes

  abbrev pub is_admin_path : String → Bool
  is_admin_path path = path == "/admin" || starts_with path "/admin/"

  unfoldable pub serve : (path : String) → HttpRequest → ServiceHandler
  serve path r =
      if is_admin_path path
      then on_state (require_admin site at (admin_route r.method path) r)
      else routed (constant http_not_found) (constant method_not_allowed) (routes r) r.method path
