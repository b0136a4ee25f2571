-- ===== src/UseCase/Authorize.antt =====
-- internal/usecase/oauth.go: Authorize
pub mod Grants
use kde_auth.Prelude.{
  ℕ, ◌+◌, String, len, Bool, Option, none, some, is_some, ◌||◌, not, ◌==◌, ltb, ◌*◌, ◌&&◌,
  if◌then◌else◌,
}
use kde_auth.Domain.Errors.{
  Error, Result, ok, err, invalid_grant, invalid_client, invalid_redirect_uri, no_app_access,
  validation_error,
}
use kde_auth.Domain.Scope.{codes, parse_scope}
use kde_auth.Domain.Client.{OauthClient, allows_redirect_uri, is_public, is_invite_only}
use kde_auth.Domain.Pkce.{parse_code_challenge_method}
use kde_auth.Domain.User.{User}
use kde_auth.Domain.Token.{AuthorizationCode}
use kde_auth.Port.{Deployment, Moment}
use kde_auth.Exec.{Exec, pure, raise, lift, guard, ignore, or_error, or_internal, ◌>>=◌, ◌>>◌}
use kde_auth.Store.Clients
use kde_auth.Store.Accesses
use kde_auth.Store.Tokens.Codes.{create_authorization_code}
use kde_auth.UseCase.Login.{resolve_session}
use kde_auth.UseCase.AppAccess.{record_access}

abbrev pub auth_code_ttl : ℕ
auth_code_ttl = 5 * 60

pub record AuthorizeInput : Type 0 where
  pub client_id : String
  pub redirect_uri : String
  pub response_type : String
  pub scope : String
  pub state : String
  pub session_token : String
  pub code_challenge : String
  pub code_challenge_method : String

pub record AuthorizeResult : Type 0 where
  pub redirect_url : String
  pub android_package : String

-- The checks on `code_challenge`; returns the method that is stored.
unfoldable pub check_challenge : OauthClient → String → String → Result String
check_challenge client challenge raw_method = elim (parse_code_challenge_method raw_method) [
  | err e ↦ err e
  | ok m ↦
      if is_public client && challenge == ""
      then err (validation_error "code_challenge" "code_challenge is required for public clients")
      else if challenge == ""
      then ok ""
      else if ltb (len challenge) 43 || ltb 128 (len challenge)
      then err (validation_error "code_challenge" "invalid code_challenge")
      else ok m
]

module _ (dep : Deployment) (at : Moment) where
  unfoldable pub check_access : OauthClient → User → Exec (Unit {0})
  check_access client user =
      if is_invite_only client
      then (do
        granted ← Accesses.has_access at user.id client.client_id
        guard granted no_app_access)
      else pure tt

  unfoldable pub build_redirect : String → String → String → Result String
  build_redirect redirect_uri code state = elim (dep.parse_url redirect_uri) [
    | none ↦ err invalid_redirect_uri
    | some _ ↦ ok (dep.with_code redirect_uri code state)
  ]

  -- Everything up to the code: the client, the stored method and the user.
  unfoldable pub check_request : AuthorizeInput → Exec OauthClient
  check_request input = do
    guard (input.response_type == "code") invalid_grant
    lift (parse_scope (codes input.scope))
    guard (not (input.state == "")) (validation_error "state" "state is required")
    client ← or_error invalid_client (Clients.by_client_id at input.client_id)
    guard (allows_redirect_uri client input.redirect_uri) invalid_redirect_uri
    pure client

  abbrev pub new_code : AuthorizeInput → OauthClient → String → User → AuthorizationCode
  new_code input client stored_method user = record {
    code = "";
    user_id = user.id;
    client_id = client.client_id;
    redirect_uri = input.redirect_uri;
    scope = input.scope;
    code_challenge = input.code_challenge;
    code_challenge_method = stored_method;
    expires_at = at.now + auth_code_ttl;
  }

  unfoldable pub issue_code : AuthorizeInput → OauthClient → String → User → Exec AuthorizeResult
  issue_code input client stored_method user = do
    raw_code ← or_internal at.random
    create_authorization_code at (new_code input client stored_method user)
        (dep.hash_token raw_code)
    ignore (record_access dep at user.id client.client_id input.redirect_uri)
    redirect_url ← lift (build_redirect input.redirect_uri raw_code input.state)
    pure (record { redirect_url = redirect_url; android_package = client.android_package })

  unfoldable pub authorize : AuthorizeInput → Exec AuthorizeResult
  authorize input = do
    client ← check_request input
    stored_method ← lift (check_challenge client input.code_challenge input.code_challenge_method)
    user ← resolve_session dep at input.session_token
    check_access client user
    issue_code input client stored_method user
