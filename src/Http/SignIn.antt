-- ===== src/Http/SignIn.antt =====
-- internal/adapter/http/handler/login.go. The page draws a token of its own (for a registration
-- link), so it has a moment of its own. The limiter is the one of cmd/server/main.go. Each of its
-- methods holds the mutex on its own, so other requests run between TooMany, the use case and Hit.
pub mod Keys
pub mod Settled
pub mod Traffic
pub mod Moves
pub mod Steps
pub mod Attempts
use kde_auth.Prelude.{
  ℕ, String, Bool, true, false, Option, none, some, List, [], ◌∷◌, ◌&&◌, ◌||◌, not, ◌==◌, concat,
  if◌then◌else◌,
}
use kde_auth.Domain.Errors.{
  Error, Result, ok, err, invalid_credentials, forbidden, too_many_attempts, no_app_access,
}
use kde_auth.Domain.Library.{Url}
use kde_auth.Domain.User.{User, is_admin}
use kde_auth.Port.{Moment}
use kde_auth.State.{State}
use kde_auth.RateLimit.{Limiter, too_many, hit, clear}
use kde_auth.UseCase.Login.{LoginInput, LoginResult, login}
use kde_auth.UseCase.Register.{link_for_public_client}
use kde_auth.Http.{HttpRequest, Method, get, post, Site, PageData, Response}
use kde_auth.Http.Handling.{World}
use kde_auth.Http.Address.{client_ip}
use kde_auth.Http.Replies.{
  user_facing_message, set_session_cookie, http_redirect, html, method_not_allowed, bad_request,
  empty_page,
}

-- The failures that count against the limit.
abbrev pub is_refusal : Error → Bool
is_refusal invalid_credentials = true
is_refusal forbidden = true
is_refusal _ = false

abbrev pub landing : String → User → String
landing next user = if not (next == "") then next else if is_admin user then "/admin" else "/"

-- What other requests make of the database and the limiter between the steps of a post, and the
-- moments of the steps after the check.
pub record Meanwhile : Type 0 where
  pub before_run : World → World
  pub run_at : Moment
  pub before_answer : World → World
  pub answer_at : Moment

-- The check either answers, or passes the page's data on.
pub data Checked : Type 0 where
  stopped : Response → Checked
  passed : PageData → Checked

module _ (site : Site) where
  -- `u.IsAbs()` is a scheme that is not empty.
  abbrev client_id_of : Option Url → String
  client_id_of none = ""
  client_id_of (some u) =
      if not (u.scheme == "") || (not (u.host == "") || not (u.path == "/authorize"))
      then ""
      else site.query_value u.raw_query "client_id"

  unfoldable pub client_id_from_next : String → String
  client_id_from_next next = client_id_of (site.parse_url next)

  abbrev register_url_of : Result (Option String) → String
  register_url_of (ok (some path)) = path
  register_url_of _ = ""

  unfoldable pub page : Moment → (next email : String) → State → PageData × State
  page at next email s =
      let (link, s') = link_for_public_client site.deployment at (client_id_from_next next) s in
      (
        record empty_page {
          title = "Sign in";
          email = email;
          next = next;
          turnstile_site_key = site.turnstile_key;
          register_url = register_url_of link;
        },
        s',
      )

  abbrev denied_note : String → PageData → PageData
  denied_note denied data_of_page =
      if denied == "1"
      then record data_of_page {
        error = concat (user_facing_message no_app_access) " Sign in with an invited account.";
      }
      else data_of_page

  unfoldable pub login_get : Moment → HttpRequest → State → Response × State
  login_get at r s =
      let (data_of_page, s') = page at (r.query "next") "" s in
      (html "login.html" (denied_note (r.query "denied") data_of_page), s')

  abbrev pub ip_key : HttpRequest → String
  ip_key r = concat "ip:" (client_ip site r)

  abbrev pub email_key : HttpRequest → String
  email_key r = concat "email:" (site.to_lower (site.trim_space (r.form "email")))

  abbrev pub login_keys : HttpRequest → List String
  login_keys r = ip_key r ∷ email_key r ∷ []

  abbrev pub login_input : HttpRequest → LoginInput
  login_input r = record {
    email = r.form "email";
    password = r.form "password";
    captcha_token = r.form "cf-turnstile-response";
    remote_ip = client_ip site r;
  }

  abbrev pub login_answer :
      Moment → HttpRequest → PageData → Limiter → Result LoginResult → Response × Limiter
  login_answer at r data_of_page l (ok result) = (
    set_session_cookie result.session_token result.expires_at site.cookie_secure
        (http_redirect (landing (r.form "next") result.user) 303),
    clear l (email_key r ∷ []),
  )
  login_answer at r data_of_page l (err e) = (
    html "login.html" (record data_of_page { error = user_facing_message e }),
    if is_refusal e then hit l at.now (login_keys r) else l,
  )

  abbrev pub too_many_page : PageData → Response
  too_many_page data_of_page =
      record (html "login.html"
        (record data_of_page { error = user_facing_message too_many_attempts })) { status = 429 }

  -- The page, and TooMany. The form is read first.
  unfoldable pub login_check : (link at : Moment) → HttpRequest → World → Checked × World
  login_check link at r w =
      let (data_of_page, s') = page link (r.form "next") (r.form "email") w.0 in
      let (blocked, l') = too_many w.1 at.now (login_keys r) in
      if not r.form_parses
      then (stopped bad_request, w)
      else if blocked
      then (stopped (too_many_page data_of_page), (s', l'))
      else (passed data_of_page, (s', l'))

  unfoldable pub login_run : Moment → HttpRequest → State → Result LoginResult × State
  login_run at r s = login site.deployment site.session_ttl at (login_input r) s

  -- The use case, and the answer, which depends on its result.
  unfoldable pub sign_in : Meanwhile → HttpRequest → PageData → World → Response × World
  sign_in others r data_of_page w =
      let w₁ = others.before_run w in
      let (result, s') = login_run others.run_at r w₁.0 in
      let w₂ = others.before_answer (s', w₁.1) in
      let (response, l') = login_answer others.answer_at r data_of_page w₂.1 result in
      (response, (w₂.0, l'))

  abbrev after_check : Meanwhile → HttpRequest → Checked → World → Response × World
  after_check others r (stopped response) w = (response, w)
  after_check others r (passed data_of_page) w = sign_in others r data_of_page w

  unfoldable pub login_post :
      Meanwhile → (link at : Moment) → HttpRequest → World → Response × World
  login_post others link at r w =
      let (checked, w') = login_check link at r w in after_check others r checked w'

  abbrev get_login : Moment → HttpRequest → World → Response × World
  get_login link r w = let (response, s') = login_get link r w.0 in (response, (s', w.1))

  abbrev by_method :
      Meanwhile → (link at : Moment) → HttpRequest → World → Method → Response × World
  by_method others link at r w get = get_login link r w
  by_method others link at r w post = login_post others link at r w
  by_method others link at r w _ = (method_not_allowed, w)

  unfoldable pub serve_login :
      Meanwhile → (link at : Moment) → HttpRequest → World → Response × World
  serve_login others link at r w = by_method others link at r w r.method
