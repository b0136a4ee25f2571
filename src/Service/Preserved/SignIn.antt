-- ===== src/Service/Preserved/SignIn.antt =====
-- Login, logout, the authorization and the token endpoint keep what the repository calls keep.
use kde_auth.Prelude.{ℕ, String}
use kde_auth.Domain.Client.{OauthClient}
use kde_auth.Domain.User.{User}
use kde_auth.Port.{Deployment, Moment}
use kde_auth.State.{State}
use kde_auth.Exec.Keeps.{Keeps, keeps_rules, Keeps-draw}
use kde_auth.Service.Preserved.{Preserved}
use kde_auth.Service.Preserved.Calls.{call_rules}
use kde_auth.UseCase.Captcha.{verify_captcha}
use kde_auth.UseCase.Login.{LoginInput, authenticate, open_session, login, logout, resolve_session}
use kde_auth.UseCase.AppAccess.{record_access}
use kde_auth.UseCase.Authorize.{AuthorizeInput, check_request, check_access, issue_code, authorize}
use kde_auth.UseCase.Exchange.{
  TokenInput, authenticate_client, load_user, issue_refresh, issue_tokens, exchange_code, refresh,
  exchange_token,
}

module _ {P : State → Type 0} (dep : Deployment) (at : Moment) (k : Preserved dep at P) where
  pub resolve-Keeps : (session_token : String) → Keeps P (resolve_session dep at session_token)
  unfolding resolve_session
  resolve-Keeps session_token = search (call_rules, k.ignores) depth 12

  authenticate-Keeps : (input : LoginInput) (ttl : ℕ) → Keeps P (authenticate dep ttl at input)
  unfolding authenticate verify_captcha
  authenticate-Keeps input ttl = search (call_rules, k.ignores) depth 12

  open_session-Keeps : (u : User) (ttl : ℕ) → Keeps P (open_session dep ttl at u)
  unfolding open_session
  open_session-Keeps u ttl = search (call_rules, k.ignores) depth 12

  pub login-Keeps : (input : LoginInput) (ttl : ℕ) → Keeps P (login dep ttl at input)
  unfolding login
  login-Keeps input ttl = search (keeps_rules, authenticate-Keeps, open_session-Keeps)

  pub logout-Keeps : (session_token : String) → Keeps P (logout dep at session_token)
  unfolding logout
  logout-Keeps session_token = search (call_rules, k.ignores)

  record_access-Keeps :
      (id client_id uri : String) → Keeps P (record_access dep at id client_id uri)
  unfolding record_access
  record_access-Keeps id client_id uri = search (call_rules, k.ignores)

  check_request-Keeps : (input : AuthorizeInput) → Keeps P (check_request dep at input)
  unfolding check_request
  check_request-Keeps input = search (call_rules, k.ignores) depth 12

  check_access-Keeps : (client : OauthClient) (u : User) → Keeps P (check_access dep at client u)
  unfolding check_access
  check_access-Keeps client u = search (call_rules, k.ignores)

  issue_code-Keeps :
      (input : AuthorizeInput) (client : OauthClient) (m : String) (u : User)
      → Keeps P (issue_code dep at input client m u)
  unfolding issue_code
  issue_code-Keeps input client m u =
      Keeps-draw _ _
        λ raw drawn. search (keeps_rules, k.create_code _ raw drawn, record_access-Keeps) depth 12

  pub authorize-Keeps : (input : AuthorizeInput) → Keeps P (authorize dep at input)
  unfolding authorize
  authorize-Keeps input =
      search (keeps_rules, check_request-Keeps, resolve-Keeps, check_access-Keeps, issue_code-Keeps)
        depth 12

  authenticate_client-Keeps :
      (client_id secret : String) → Keeps P (authenticate_client dep at client_id secret)
  unfolding authenticate_client
  authenticate_client-Keeps client_id secret = search (call_rules, k.ignores)

  load_user-Keeps : (id : String) → Keeps P (load_user dep at id)
  unfolding load_user
  load_user-Keeps id = search (call_rules, k.ignores) depth 8

  issue_refresh-Keeps :
      (u : User) (client_id scope access : String)
      → Keeps P (issue_refresh dep at u client_id scope access)
  unfolding issue_refresh
  issue_refresh-Keeps u client_id scope access =
      Keeps-draw _ _ λ raw drawn. search (keeps_rules, k.create_refresh _ raw drawn)

  issue_tokens-Keeps :
      (u : User) (client_id scope : String) → Keeps P (issue_tokens dep at u client_id scope)
  unfolding issue_tokens
  issue_tokens-Keeps u client_id scope = search (keeps_rules, issue_refresh-Keeps)

  exchange_code-Keeps : (input : TokenInput) → Keeps P (exchange_code dep at input)
  unfolding exchange_code
  exchange_code-Keeps input =
      search
        (
          keeps_rules, authenticate_client-Keeps, k.consume_code, load_user-Keeps,
          issue_tokens-Keeps,
        )
        depth 12

  refresh-Keeps : (input : TokenInput) → Keeps P (refresh dep at input)
  unfolding refresh
  refresh-Keeps input =
      search
        (
          keeps_rules, authenticate_client-Keeps, k.consume_refresh, load_user-Keeps,
          issue_tokens-Keeps,
        )
        depth 12

  pub exchange_token-Keeps : (input : TokenInput) → Keeps P (exchange_token dep at input)
  unfolding exchange_token
  exchange_token-Keeps input = search (keeps_rules, exchange_code-Keeps, refresh-Keeps)
