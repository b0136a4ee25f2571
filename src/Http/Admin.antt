-- ===== src/Http/Admin.antt =====
-- internal/adapter/http/handler/admin_auth.go, and the actions of admin.go on accounts. The
-- administrator in the context of a request is the argument `actor`; a page shows it, and an action
-- without one is refused.
pub mod Pages
pub mod ClientPages
pub mod InvitePages
pub mod Access
use kde_auth.Prelude.{String, Bool, true, false, Option, none, some, not, ◌==◌, if◌then◌else◌}
use kde_auth.Domain.Errors.{Error, Result, ok, err}
use kde_auth.Domain.User.{User, is_admin, status_of}
use kde_auth.Port.{Moment}
use kde_auth.State.{State}
use kde_auth.Exec.{Exec}
use kde_auth.UseCase.Login.{resolve_session}
use kde_auth.UseCase.AdminUsers.{set_status, delete_user, revoke_sessions}
use kde_auth.Http.{HttpRequest, Site, Response}
use kde_auth.Http.Handling.{Handler, respond, call}
use kde_auth.Http.Registration.{with_form}
use kde_auth.Http.Replies.{
  user_facing_message, session_token, http_error, http_not_found, http_redirect,
}

abbrev pub AdminHandler : Type 0
AdminHandler = Option User → HttpRequest → Handler

-- The answer of an action without an administrator, and of one with it.
abbrev pub with_actor : Response → (User → Handler) → Option User → Handler
with_actor refused next none = respond refused
with_actor refused next (some actor) = next actor

abbrev pub server_error : Error → Handler
server_error e = respond (http_error "error" 500)

abbrev pub refused_by : Error → Handler
refused_by e = respond (http_error (user_facing_message e) 400)

abbrev pub not_permitted : Response
not_permitted = http_error "forbidden" 403

module _ (site : Site) (at : Moment) where
  abbrev pub admitted : AdminHandler → HttpRequest → Result User → Handler
  admitted next r (ok user) s = if is_admin user then next (some user) r s else (http_not_found, s)
  admitted next r (err _) s = (http_not_found, s)

  unfoldable pub require_admin : AdminHandler → HttpRequest → Handler
  require_admin next r s =
      let (user, s') = resolve_session site.deployment at (session_token r) s in
      admitted next r user s'

  abbrev next_or_users : HttpRequest → String
  next_or_users r = if r.form "next" == "" then "/admin/users" else r.form "next"

  -- An action on an account, and back to the list.
  abbrev pub user_action : Exec (Unit {0}) → HttpRequest → Handler
  user_action action r =
      with_form r (call action (λ _. respond (http_redirect (next_or_users r) 303)) refused_by)

  unfoldable pub admin_set_status : AdminHandler
  admin_set_status actor r =
      with_actor not_permitted
        (λ user.
          user_action
            (set_status site.deployment at user (r.form "user_id") (status_of (r.form "status"))) r)
        actor

  unfoldable pub admin_revoke_sessions : AdminHandler
  admin_revoke_sessions actor r =
      with_actor http_not_found
        (λ user. user_action (revoke_sessions site.deployment at user (r.form "user_id")) r) actor

  unfoldable pub admin_delete_user : AdminHandler
  admin_delete_user actor r =
      with_actor http_not_found
        (λ user. user_action (delete_user site.deployment at user (r.form "user_id")) r) actor
