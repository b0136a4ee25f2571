-- ===== src/Http/SignOut.antt =====
-- internal/adapter/http/handler/authorize.go and Logout of verify_logout.go
pub mod Dropped
use kde_auth.Prelude.{
  String, Bool, true, false, Option, none, some, ◌||◌, not, ◌==◌, concat, if◌then◌else◌,
}
use kde_auth.Domain.Errors.{Error, Result, ok, err, unauthorized, no_app_access}
use kde_auth.Domain.Client.{OauthClient, allows_redirect_uri}
use kde_auth.Port.{Moment}
use kde_auth.State.{State}
use kde_auth.Store.Clients
use kde_auth.UseCase.Login.{logout}
use kde_auth.UseCase.Authorize.{AuthorizeInput, AuthorizeResult, authorize}
use kde_auth.Http.{HttpRequest, Method, get, Site, Response, no_body}
use kde_auth.Http.AppLinks.{uses_custom_redirect_scheme, app_open_redirect_url}
use kde_auth.Http.Handling.{Handler, respond, call}
use kde_auth.Http.Replies.{reply, write_error, clear_session_cookie, session_token, http_redirect}

module _ (site : Site) where
  -- Where a redirect goes: a link of another scheme than http may open the app.
  abbrev pub redirect_target : HttpRequest → (target android_package : String) → String
  redirect_target r target android_package =
      if uses_custom_redirect_scheme site.library target
      then app_open_redirect_url site.library (r.header "User-Agent") target android_package
      else target

  abbrev pub authorize_input : HttpRequest → AuthorizeInput
  authorize_input r = record {
    client_id = r.query "client_id";
    redirect_uri = r.query "redirect_uri";
    response_type = r.query "response_type";
    scope = r.query "scope";
    state = r.query "state";
    session_token = session_token r;
    code_challenge = r.query "code_challenge";
    code_challenge_method = r.query "code_challenge_method";
  }

  abbrev pub login_url : HttpRequest → String
  login_url r = concat "/login?next=" (site.query_escape (concat "/authorize?" r.encoded_query))

  -- `_ = h.logout.Execute(...)`: the session is dropped, whatever the call answers.
  abbrev pub dropped_session : Moment → HttpRequest → State → State
  dropped_session at r s = (logout site.deployment at (session_token r) s).1

  abbrev pub authorize_failed : Moment → HttpRequest → Error → Handler
  authorize_failed at r unauthorized s = (http_redirect (login_url r) 303, s)
  authorize_failed at r no_app_access s = (
    clear_session_cookie site.cookie_secure (http_redirect (concat (login_url r) "&denied=1") 303),
    dropped_session at r s,
  )
  authorize_failed at r e s = (write_error e, s)

  abbrev pub authorize_done : HttpRequest → AuthorizeResult → Handler
  authorize_done r result =
      respond (http_redirect (redirect_target r result.redirect_url result.android_package) 302)

  unfoldable pub serve_authorize : Moment → HttpRequest → Handler
  serve_authorize at r =
      call (authorize site.deployment at (authorize_input r)) (authorize_done r)
        (authorize_failed at r)

  abbrev pub return_of : String → Result OauthClient → String × String
  return_of redirect_uri (ok client) =
      if allows_redirect_uri client redirect_uri
      then (redirect_uri, client.android_package)
      else ("", "")
  return_of redirect_uri (err _) = ("", "")

  abbrev pub is_get : Method → Bool
  is_get get = true
  is_get _ = false

  -- The URI and the Android package; ("", "") where there is nowhere to return to.
  unfoldable pub allowed_return : Moment → HttpRequest → State → String × String
  allowed_return at r s =
      let client_id = r.query "client_id" in
      let redirect_uri = r.query "redirect_uri" in
      let client = (Clients.by_client_id at client_id s).0 in
      if not (is_get r.method)
      then ("", "")
      else if client_id == "" || redirect_uri == ""
      then ("", "")
      else return_of redirect_uri client

  abbrev pub logout_reply : HttpRequest → String × String → Response
  logout_reply r (redirect, android_package) =
      if redirect == ""
      then reply 204 no_body
      else http_redirect (redirect_target r redirect android_package) 302

  unfoldable pub serve_logout : Moment → HttpRequest → Handler
  serve_logout at r s = (
    clear_session_cookie site.cookie_secure (logout_reply r (allowed_return at r s)),
    dropped_session at r s,
  )
