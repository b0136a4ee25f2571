-- ===== src/Tests/Handlers.antt =====
-- Requests to the handlers.
use kde_auth.Prelude.{◌≤◌, ◌≡◌, ◌⊎◌, refl, String, true, none, some, List, [], ◌∷◌, concat, arith}
use kde_auth.Domain.Errors.{err, unauthorized, no_app_access}
use kde_auth.Domain.Client.{AccessMode}
use kde_auth.Domain.User.{User, is_admin}
use kde_auth.State.{State, empty}
use kde_auth.Exec.{◌>>=◌}
use kde_auth.Store.Sessions
use kde_auth.Store.Users
use kde_auth.UseCase.Login.{resolve_session}
use kde_auth.UseCase.SignedOut.{SignedOut}
use kde_auth.Http.{HttpRequest, get, post, cleared}
use kde_auth.Http.SignIn.{login_check, login_run, page, client_id_from_next}
use kde_auth.Http.SignIn.Attempts.{refusals_bounded}
use kde_auth.Http.SignIn.Traffic.{
  Event, arrives, runs, answers, elsewhere, Traffic, step, refusals, FlightsUpTo,
}
use kde_auth.Http.Address.{client_ip}
use kde_auth.RateLimit.{too_many, hit}
use kde_auth.Domain.Email.{parse_email}
use kde_auth.UseCase.Captcha.{verify_captcha}
use kde_auth.UseCase.Login.{login, authenticate}
use kde_auth.UseCase.Register.{link_for_public_client}
use kde_auth.Http.Admin.{require_admin, admin_set_status}
use kde_auth.Http.Admin.Access.{HasSession, require_admin-HasSession}
use kde_auth.Http.Replies.{http_not_found}
use kde_auth.Domain.Pkce.{parse_code_challenge_method, new_plain_password}
use kde_auth.Domain.Scope.{parse_scope}
use kde_auth.Domain.Client.{is_public, is_invite_only, allows_redirect_uri}
use kde_auth.Domain.User.{can_authorize, can_authenticate, is_email_verified}
use kde_auth.Store.Clients
use kde_auth.Store.Accesses
use kde_auth.Store.Tokens.Refreshes.{revoke_all_refresh_tokens_for_user}
use kde_auth.UseCase.Passwords.{change_password, check_change, set_password}
use kde_auth.UseCase.Authorize.{authorize, check_request, check_challenge, check_access}
use kde_auth.Http.Handling.{call}
use kde_auth.Http.Replies.{write_json}
use kde_auth.Http.Tokens.{serve_change_password, subject, bearer_token}
use kde_auth.Http.Tokens.Grants.{serve_change_password-SignedOut}
use kde_auth.Http.SignOut.{serve_authorize, authorize_input, login_url}
use kde_auth.Http.SignOut.Dropped.{serve_authorize-no_app_access}
use kde_auth.Tests.Data.{deployment, moment, world, desk, verifier}
use kde_auth.Tests.Requests.{site, request, limiter, office}

abbrev guess : String → HttpRequest
guess password =
    request post [] (("email", "ada@example.org") ∷ ("password", password) ∷ [])
      (("X-Real-IP", "192.0.2.7") ∷ []) none

-- Two posts are checked before either is answered.
abbrev guesses : List Event
guesses =
    arrives (moment 100 "") (moment 100 "") (guess "wrong")
    ∷ arrives (moment 101 "") (moment 101 "") (guess "worse")
    ∷ runs (moment 102 "r1") 1
    ∷ answers (moment 103 "r1") 0
    ∷ elsewhere (λ s. empty)
    ∷ runs (moment 104 "r1") 0
    ∷ answers (moment 105 "r1") 0
    ∷ []

abbrev quiet : Traffic
quiet = record { world = (world, limiter); running = []; answering = [] }

two_at_once : FlightsUpTo site 2 "ip:192.0.2.7" guesses quiet
unfolding FlightsUpTo step login_check login_run page link_for_public_client client_id_from_next
    too_many hit login authenticate parse_email verify_captcha client_ip Users.by_email ◌>>=◌
two_at_once = (
  omega arith,
  (omega arith, (omega arith, (omega arith, (omega arith, (omega arith, (omega arith, tt)))))),
)

refusals_bounded_example : refusals site "ip:192.0.2.7" guesses quiet ≤ 6
refusals_bounded_example =
    refusals_bounded site 2 100 "192.0.2.7" guesses (world, limiter) (omega arith)
      (
        (omega arith, omega arith),
        (
          (omega arith, omega arith),
          (tt, ((omega arith, omega arith), (tt, (tt, ((omega arith, omega arith), tt))))),
        ),
      )
      two_at_once

abbrev suspend_request : HttpRequest
suspend_request =
    request post [] (("user_id", "u1") ∷ ("status", "suspended") ∷ []) [] (some "root")

require_admin-HasSession_example :
    let r = suspend_request in
    let next = admin_set_status site (moment 100 "r1") in
    (require_admin site (moment 100 "r1") next r office ≡ (http_not_found, office))
    ⊎ ((user : User) × (is_admin user ≡ true)
        × HasSession site (moment 100 "r1") r office user
        × (require_admin site (moment 100 "r1") next r office ≡ next (some user) r office))
require_admin-HasSession_example =
    require_admin-HasSession site (moment 100 "r1") (admin_set_status site (moment 100 "r1"))
      suspend_request office

abbrev token_request : HttpRequest
token_request =
    request post []
      (("grant_type", "authorization_code")
        ∷ ("code", "code")
        ∷ ("redirect_uri", "https://app.example/cb")
        ∷ ("client_id", "desk")
        ∷ ("code_verifier", verifier)
        ∷ [])
      [] none

abbrev change_request : HttpRequest
change_request =
    request post []
      (("current_password", "correct horse")
        ∷ ("new_password", "a longer pass")
        ∷ ("new_password_confirm", "a longer pass")
        ∷ [])
      (("Authorization", "Bearer jwt:u1") ∷ []) none

change_answered : (serve_change_password site (moment 100 "r1") change_request world).0.status ≡ 200
unfolding serve_change_password subject bearer_token call write_json change_password check_change
    new_plain_password can_authorize can_authenticate is_email_verified set_password Users.by_id
    Users.update_password Sessions.revoke_all_for_user revoke_all_refresh_tokens_for_user ◌>>=◌
change_answered = refl

serve_change_password-SignedOut_example :
    (id : String) × (subject site (moment 100 "r1") change_request ≡ some id)
    × SignedOut id (serve_change_password site (moment 100 "r1") change_request world).1
serve_change_password-SignedOut_example =
    serve_change_password-SignedOut site (moment 100 "r1") change_request world change_answered

abbrev logout_request : HttpRequest
logout_request =
    request get (("client_id", "desk") ∷ ("redirect_uri", "https://app.example/cb") ∷ []) [] []
      (some "session")

-- The application takes invited accounts only.
abbrev invite_world : State
invite_world = record world { clients = record desk { access_mode = AccessMode.invite_only } ∷ [] }

abbrev authorize_request : HttpRequest
authorize_request =
    request get
      (("client_id", "desk")
        ∷ ("redirect_uri", "https://app.example/cb")
        ∷ ("response_type", "code")
        ∷ ("scope", "openid")
        ∷ ("state", "xyz")
        ∷ ("code_challenge", "0123456789012345678901234567890123456789abcdef")
        ∷ ("code_challenge_method", "S256")
        ∷ [])
      [] [] (some "session")

denied :
    (authorize deployment (moment 100 "r1") (authorize_input site authorize_request) invite_world).0
    ≡ err no_app_access
unfolding authorize check_request check_challenge check_access resolve_session parse_scope
    parse_code_challenge_method allows_redirect_uri is_public is_invite_only can_authorize
    can_authenticate is_email_verified Clients.by_client_id Accesses.has_access
    Sessions.by_token_hash Users.by_id ◌>>=◌
denied = refl

serve_authorize-no_app_access_example :
    let (reply, s') = serve_authorize site (moment 100 "r1") authorize_request invite_world in
    (reply.cookie ≡ cleared true)
    × (reply.location ≡ concat (login_url site authorize_request) "&denied=1")
    × ((resolve_session deployment (moment 200 "r2") "session" s').0 ≡ err unauthorized)
serve_authorize-no_app_access_example =
    serve_authorize-no_app_access site (moment 100 "r1") (moment 200 "r2") authorize_request
      invite_world denied refl
