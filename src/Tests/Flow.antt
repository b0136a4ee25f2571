-- ===== src/Tests/Flow.antt =====
-- An authorization, and the exchange of its code.
use kde_auth.Prelude.{◌≡◌, ne_of_test, refl, true, some, concat, arith, find}
use kde_auth.Domain.Errors.{ok}
use kde_auth.Domain.Client.{OauthClient, is_public, allows_redirect_uri, is_invite_only}
use kde_auth.Domain.Pkce.{parse_code_challenge_method}
use kde_auth.Domain.Scope.{parse_scope}
use kde_auth.Domain.User.{can_authorize}
use kde_auth.Exec.{◌>>=◌, ignore}
use kde_auth.Store.Accesses
use kde_auth.Store.Clients
use kde_auth.Store.Clients.{client_named}
use kde_auth.Store.Sessions
use kde_auth.Store.Users
use kde_auth.Store.Tokens.Codes.{create_authorization_code}
use kde_auth.UseCase.AppAccess.{record_access}
use kde_auth.UseCase.Login.{resolve_session}
use kde_auth.UseCase.Authorize.{
  AuthorizeInput, AuthorizeResult, check_request, check_challenge, check_access, build_redirect,
  issue_code, authorize,
}
use kde_auth.UseCase.Exchange.{TokenInput, TokenResult, secret_accepted, exchange_code}
use kde_auth.UseCase.Exchange.Completeness.{Available}
use kde_auth.Service.CodeFlow.{Redeems, exchange_code-authorize}
use kde_auth.Tests.Data.{deployment, moment, world, verifier}
use kde_auth.State.{State}
use kde_auth.Tests.Tokens.{code_request}

abbrev authorize_request : AuthorizeInput
authorize_request = record {
  client_id = "desk";
  redirect_uri = "https://app.example/cb";
  response_type = "code";
  scope = "openid offline_access";
  state = "xyz";
  session_token = "session";
  code_challenge = concat "s256:" verifier;
  code_challenge_method = "S256";
}

abbrev authorize_result : AuthorizeResult
authorize_result = record {
  redirect_url = "https://app.example/cb?code=r0&state=xyz";
  android_package = "";
}

abbrev authorized : State
authorized = (authorize deployment (moment 90 "r0") authorize_request world).1

authorize_run :
    authorize deployment (moment 90 "r0") authorize_request world
    ≡ (ok authorize_result, authorized)
unfolding authorize check_request check_challenge check_access build_redirect issue_code parse_scope
    allows_redirect_uri is_public is_invite_only parse_code_challenge_method can_authorize
    resolve_session record_access Clients.by_client_id Sessions.by_token_hash Users.by_id
    Accesses.has_access Accesses.upsert create_authorization_code ignore ◌>>=◌
authorize_run = refl

abbrev redeem_request : TokenInput
redeem_request = record code_request { code = "r0" }

desk_authenticates :
    (client : OauthClient)
    → find (client_named "desk") world.clients ≡ some client
    → secret_accepted deployment (moment 100 "r1") client "" ≡ true
unfolding secret_accepted is_public
desk_authenticates client e = ground (arith, e)

redeems :
    Redeems deployment (moment 90 "r0") (moment 100 "r1") authorize_request redeem_request world
redeems = record {
  code_sent = refl;
  same_client = refl;
  same_redirect = refl;
  authenticates = desk_authenticates;
  in_time = omega arith;
  challenged = ne_of_test (concat "s256:" verifier) "" refl;
  digest = refl;
  least = omega arith;
  most = omega arith;
}

still_answering : Available deployment (moment 100 "r1") authorized
unfolding authorize check_request check_challenge check_access build_redirect issue_code parse_scope
    allows_redirect_uri is_public is_invite_only parse_code_challenge_method can_authorize
    resolve_session record_access Clients.by_client_id Sessions.by_token_hash Users.by_id
    Accesses.has_access Accesses.upsert create_authorization_code ignore ◌>>=◌
still_answering = record {
  raw_refresh = "r1";
  drawn = refl;
  unused = refl;
  clients_answer = refl;
  users_answer = refl;
  codes_answer = refl;
  refreshes_answer = refl;
}

exchange_code-authorize_example :
    (out : TokenResult) × (t : State) × (exchange_code deployment
        (moment 100 "r1")
        redeem_request
        authorized
      ≡ (ok out, t))
    × (out.scope ≡ "openid offline_access")
exchange_code-authorize_example =
    exchange_code-authorize deployment (λ claims. concat "jwt:" claims.subject) (moment 90 "r0")
      (moment 100 "r1") authorize_request redeem_request world authorized authorize_result
      (λ c. refl) authorize_run redeems still_answering
