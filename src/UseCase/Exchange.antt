-- ===== src/UseCase/Exchange.antt =====
-- internal/usecase/oauth.go: ExchangeToken and UserInfo
pub mod Grants
pub mod Renewals
pub mod Completeness
pub mod Failures
pub mod RefreshCompleteness
use kde_auth.Prelude.{
  ℕ, ◌+◌, ◌*◌, String, Bool, Option, none, some, ◌||◌, ◌&&◌, not, ◌==◌, if◌then◌else◌,
}
use kde_auth.Domain.Errors.{Error, Result, ok, err, invalid_grant, invalid_client, unauthorized}
use kde_auth.Domain.Scope.{codes, scope_includes, scope_offline_access}
use kde_auth.Domain.Client.{OauthClient, is_public}
use kde_auth.Domain.Pkce.{verify_pkce_s256}
use kde_auth.Domain.User.{User, Role, can_authorize, is_email_verified}
use kde_auth.Domain.Token.{AuthorizationCode, RefreshToken}
use kde_auth.Port.{Deployment, Moment, AccessClaims}
use kde_auth.Exec.{Exec, pure, raise, lift, guard, or_error, if_not_found, or_internal, ◌>>=◌, ◌>>◌}
use kde_auth.Store.Clients
use kde_auth.Store.Users
use kde_auth.Store.Tokens.Codes.{consume_authorization_code}
use kde_auth.Store.Tokens.Refreshes.{create_refresh_token, consume_refresh_token}

abbrev pub access_token_ttl : ℕ
access_token_ttl = 15 * 60

abbrev pub refresh_token_ttl : ℕ
refresh_token_ttl = 30 * 24 * 3600

pub record TokenInput : Type 0 where
  pub grant_type : String
  pub code : String
  pub redirect_uri : String
  pub client_id : String
  pub client_secret : String
  pub code_verifier : String
  pub refresh_token : String

pub record TokenResult : Type 0 where
  pub access_token : String
  pub token_type : String
  pub expires_in : ℕ
  pub refresh_token : String
  pub scope : String

module _ (dep : Deployment) (at : Moment) where
  -- A public client sends no secret; any other must send its own.
  unfoldable pub secret_accepted : OauthClient → String → Bool
  secret_accepted client secret =
      if is_public client
      then secret == ""
      else not (secret == "") && dep.verify_password client.client_secret_hash secret

  unfoldable pub authenticate_client : String → String → Exec OauthClient
  authenticate_client client_id secret = do
    client ← or_error invalid_client (Clients.by_client_id at client_id)
    guard (secret_accepted client secret) invalid_client
    pure client

  abbrev pub claims_of : User → String → AccessClaims
  claims_of user client_id = record {
    subject = user.id;
    audience = client_id;
    email = user.email;
    email_verified = is_email_verified user;
    role = user.role;
    expires_at = at.now + access_token_ttl;
  }

  abbrev pub token_result : String → String → String → TokenResult
  token_result access_token scope refresh_token = record {
    access_token = access_token;
    token_type = "Bearer";
    expires_in = access_token_ttl;
    refresh_token = refresh_token;
    scope = scope;
  }

  abbrev pub new_refresh : User → String → String → RefreshToken
  new_refresh user client_id scope = record {
    token = "";
    user_id = user.id;
    client_id = client_id;
    scope = scope;
    expires_at = at.now + refresh_token_ttl;
  }

  -- The refresh token, for the scope offline_access.
  unfoldable pub issue_refresh : User → String → String → String → Exec TokenResult
  issue_refresh user client_id scope access_token = do
    raw_refresh ← or_internal at.random
    create_refresh_token at (new_refresh user client_id scope) (dep.hash_token raw_refresh)
    pure (token_result access_token scope raw_refresh)

  unfoldable pub issue_tokens : User → String → String → Exec TokenResult
  issue_tokens user client_id scope = do
    access_token ← or_internal (dep.access_token (claims_of user client_id))
    if not (scope_includes (codes scope) scope_offline_access)
        then pure (token_result access_token scope "")
        else issue_refresh user client_id scope access_token

  -- The binding of the code to the client, the redirect URI and the verifier.
  unfoldable pub check_code : OauthClient → AuthorizationCode → TokenInput → Result (Unit {0})
  check_code client code input =
      if not (code.client_id == client.client_id) || not (code.redirect_uri == input.redirect_uri)
      then err invalid_grant
      else if not (code.code_challenge == "")
      then (if not (code.code_challenge_method == "S256")
          then err invalid_grant
          else verify_pkce_s256 dep.s256 code.code_challenge input.code_verifier)
      else if is_public client
      then err invalid_grant
      else ok tt

  unfoldable pub load_user : String → Exec User
  load_user id = do
    user ← or_error invalid_grant (Users.by_id dep at id)
    or_error invalid_grant (lift (can_authorize user))
    pure user

  unfoldable pub exchange_code : TokenInput → Exec TokenResult
  exchange_code input = do
    client ← authenticate_client input.client_id input.client_secret
    code ←
        if_not_found invalid_grant
          (consume_authorization_code at (dep.hash_token input.code) at.now)
    lift (check_code client code input)
    user ← load_user code.user_id
    issue_tokens user client.client_id code.scope

  unfoldable pub refresh : TokenInput → Exec TokenResult
  refresh input = do
    client ← authenticate_client input.client_id input.client_secret
    token ←
        if_not_found invalid_grant
          (consume_refresh_token at (dep.hash_token input.refresh_token) at.now)
    guard (token.client_id == client.client_id) invalid_grant
    user ← load_user token.user_id
    issue_tokens user client.client_id token.scope

  unfoldable pub exchange_token : TokenInput → Exec TokenResult
  exchange_token input =
      if input.grant_type == "authorization_code"
      then exchange_code input
      else if input.grant_type == "refresh_token"
      then refresh input
      else raise invalid_grant

pub record UserInfo : Type 0 where
  pub sub : String
  pub email : String
  pub email_verified : Bool
  pub role : Role

unfoldable pub user_info : Deployment → Moment → AccessClaims → Exec UserInfo
user_info dep at claims = do
  user ← or_error unauthorized (Users.by_id dep at claims.subject)
  pure (record {
    sub = user.id;
    email = user.email;
    email_verified = is_email_verified user;
    role = user.role;
  })
