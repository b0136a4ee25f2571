-- ===== src/Tests/Tokens.antt =====
-- Exchanges of a code and of a refresh token.
use kde_auth.Prelude.{
  ne_of_test, ◌≡◌, ◌≢◌, ne_of_test, refl, ◌∙◌, ℕ, true, String, List, [], ◌∷◌, some, none, concat,
  arith, inl, ap,
}
use kde_auth.Domain.Errors.{ok}
use kde_auth.Domain.Client.{is_public}
use kde_auth.Domain.Pkce.{verify_pkce_s256}
use kde_auth.Domain.Scope.{scope_includes}
use kde_auth.Domain.User.{can_authorize}
use kde_auth.Exec.{◌>>=◌}
use kde_auth.Port.{Moment}
use kde_auth.Store.Clients
use kde_auth.Store.Clients.{client_named}
use kde_auth.Store.Users
use kde_auth.Store.Tokens.Codes.{consume_authorization_code}
use kde_auth.Store.Tokens.Refreshes.{create_refresh_token, consume_refresh_token}
use kde_auth.UseCase.Exchange.{
  TokenInput, TokenResult, secret_accepted, authenticate_client, check_code, load_user,
  issue_refresh, issue_tokens, exchange_code, refresh,
}
use kde_auth.UseCase.Exchange.Grants.{CodeGrant, exchange_code-CodeGrant}
use kde_auth.UseCase.Exchange.Renewals.{RefreshGrant, refresh-RefreshGrant}
use kde_auth.UseCase.Exchange.Completeness.{Available, exchange_code_complete}
use kde_auth.Service.{Request, log_out, run}
use kde_auth.Service.SingleUse.{DrawsOther, exchange_code-once}
use kde_auth.Service.RefreshOnce.{refresh-once}
use kde_auth.UseCase.Exchange.RefreshCompleteness.{refresh_complete}
use kde_auth.UseCase.Exchange.Failures.{other_redirect, exchange_code-with_used}
use kde_auth.Store.Tokens.Codes.Consumption.{with_used}
use kde_auth.Domain.Errors.{err, invalid_grant}
use kde_auth.Tests.Data.{
  refresh_of_ada, deployment, moment, world, verifier, desk, ada, code_of_ada,
}
use kde_auth.State.{State}

abbrev pub code_request : TokenInput
code_request = record {
  grant_type = "authorization_code";
  code = "code";
  redirect_uri = "https://app.example/cb";
  client_id = "desk";
  client_secret = "";
  code_verifier = verifier;
  refresh_token = "";
}

abbrev token_result_of : String → TokenResult
token_result_of raw = record {
  access_token = "jwt:u1";
  token_type = "Bearer";
  expires_in = 900;
  refresh_token = raw;
  scope = "openid offline_access";
}

abbrev exchanged : State
exchanged = (exchange_code deployment (moment 100 "r1") code_request world).1

exchange_run :
    exchange_code deployment (moment 100 "r1") code_request world
    ≡ (ok (token_result_of "r1"), exchanged)
unfolding exchange_code authenticate_client secret_accepted check_code load_user issue_refresh
    issue_tokens is_public verify_pkce_s256 scope_includes can_authorize Clients.by_client_id
    Users.by_id consume_authorization_code create_refresh_token ◌>>=◌
exchange_run = refl

exchange_code-CodeGrant_example :
    CodeGrant deployment (moment 100 "r1") code_request world (token_result_of "r1") exchanged
exchange_code-CodeGrant_example =
    exchange_code-CodeGrant deployment (moment 100 "r1") code_request world (token_result_of "r1")
      exchanged exchange_run

desk_accepted : secret_accepted deployment (moment 100 "r1") desk "" ≡ true
unfolding secret_accepted is_public
desk_accepted = refl

ada_allowed : can_authorize ada ≡ ok tt
unfolding can_authorize
ada_allowed = refl

answering : Available deployment (moment 100 "r1") world
answering = record {
  raw_refresh = "r1";
  drawn = refl;
  unused = refl;
  clients_answer = refl;
  users_answer = refl;
  codes_answer = refl;
  refreshes_answer = refl;
}

exchange_code_complete_example :
    (res : TokenResult) × (t : State) × (exchange_code deployment
        (moment 100 "r1")
        code_request
        world
      ≡ (ok res, t))
    × (res.access_token ≡ "jwt:u1")
    × (res.scope ≡ "openid offline_access")
exchange_code_complete_example =
    exchange_code_complete deployment (moment 100 "r1") code_request world desk code_of_ada ada
      "jwt:u1" answering refl desk_accepted refl refl refl refl
      (inl (ne_of_test (concat "s256:" verifier) "" refl, refl, refl, omega arith, omega arith))
      refl ada_allowed refl

-- No token that a history draws has the hash of `code` or `refresh`.
abbrev history : List (Moment × Request)
history = (moment 150 "r2", log_out "session") ∷ []

draw_is :
    (now : ℕ) (raw h : String) → concat "sha:" raw ≢ h → DrawsOther deployment h (moment now raw)
draw_is now raw h ne other e k =
    ne (ap (λ o. elim o [ none ↦ concat "sha:" raw | some r ↦ concat "sha:" r ]) e ∙ k)

exchange_code-once_example :
    exchange_code deployment (moment 200 "r3") code_request (run deployment 600 history exchanged)
    ≢ (ok (token_result_of "r3"), exchanged)
exchange_code-once_example =
    exchange_code-once deployment 600 (moment 100 "r1") (moment 200 "r3") code_request code_request
      world exchanged exchanged (token_result_of "r1") (token_result_of "r3") history exchange_run
      (draw_is 150 "r2" "sha:code" (ne_of_test "sha:r2" "sha:code" refl), tt) refl

abbrev refresh_request : TokenInput
refresh_request = record code_request { grant_type = "refresh_token"; refresh_token = "refresh" }

abbrev refreshed : State
refreshed = (refresh deployment (moment 100 "r1") refresh_request world).1

refresh_run :
    refresh deployment (moment 100 "r1") refresh_request world
    ≡ (ok (token_result_of "r1"), refreshed)
unfolding refresh authenticate_client secret_accepted load_user issue_refresh issue_tokens is_public
    scope_includes can_authorize Clients.by_client_id Users.by_id consume_refresh_token
    create_refresh_token ◌>>=◌
refresh_run = refl

refresh-RefreshGrant_example :
    RefreshGrant deployment (moment 100 "r1") refresh_request world (token_result_of "r1") refreshed
refresh-RefreshGrant_example =
    refresh-RefreshGrant deployment (moment 100 "r1") refresh_request world (token_result_of "r1")
      refreshed refresh_run

refresh-once_example :
    refresh deployment (moment 200 "r3") refresh_request (run deployment 600 history refreshed)
    ≢ (ok (token_result_of "r3"), refreshed)
refresh-once_example =
    refresh-once deployment 600 (moment 100 "r1") (moment 200 "r3") refresh_request refresh_request
      world refreshed refreshed (token_result_of "r1") (token_result_of "r3") history refresh_run
      (draw_is 100 "r1" "sha:refresh" (ne_of_test "sha:r1" "sha:refresh" refl))
      (draw_is 150 "r2" "sha:refresh" (ne_of_test "sha:r2" "sha:refresh" refl), tt) refl

refresh_complete_example :
    (res : TokenResult) × (t : State) × (refresh deployment (moment 100 "r1") refresh_request world
      ≡ (ok res, t))
    × (res.access_token ≡ "jwt:u1")
    × (res.scope ≡ "openid offline_access")
refresh_complete_example =
    refresh_complete deployment (moment 100 "r1") refresh_request world desk refresh_of_ada ada
      "jwt:u1" answering refl refl desk_accepted refl refl refl refl ada_allowed refl

-- The redirect URI is another one.
abbrev wrong_request : TokenInput
wrong_request = record code_request { redirect_uri = "https://other.example/cb" }

exchange_code-with_used_example :
    exchange_code deployment (moment 100 "r1") wrong_request world
    ≡ (err invalid_grant, with_used "sha:code" 100 world)
exchange_code-with_used_example =
    exchange_code-with_used deployment (moment 100 "r1") wrong_request world desk code_of_ada refl
      refl refl desk_accepted refl refl
      (other_redirect (ne_of_test "https://app.example/cb" "https://other.example/cb" refl))
