-- ===== src/UseCase/AdminClients.antt =====
-- internal/usecase/password_reset.go (AdminClients) and admin_clients.go
use kde_auth.Prelude.{String, ◌||◌, not, ◌==◌, if◌then◌else◌}
use kde_auth.Domain.Errors.{Result, ok, err, forbidden, validation_error, is_not_found}
use kde_auth.Domain.Client.{
  OauthClient, TokenEndpointAuthMethod, parse_access_mode, parse_token_endpoint_auth_method,
  is_none_method,
}
use kde_auth.Domain.RedirectList.{parse_redirect_uri_list, parse_android_package}
use kde_auth.Domain.User.{User, is_admin}
use kde_auth.Port.{Deployment, Moment}
use kde_auth.Exec.{Exec, pure, lift, guard, if_not_found, or_internal, ◌>>=◌, ◌>>◌}
use kde_auth.Store.Clients

pub record CreateClientInput : Type 0 where
  pub client_id : String
  pub name : String
  pub redirect_uri : String
  pub android_package : String
  pub access_mode : String
  pub token_endpoint_auth_method : String

pub record CreateClientResult : Type 0 where
  pub client : OauthClient
  pub client_secret : String

module _ (dep : Deployment) (at : Moment) where
  abbrev absent : Result OauthClient → Result (Unit {0})
  absent (ok _) = err (validation_error "client_id" "client_id already exists")
  absent (err e) = if is_not_found e then ok tt else err e

  unfoldable pub require_absent : String → Exec (Unit {0})
  require_absent client_id s = let (r, s') = Clients.by_client_id at client_id s in (absent r, s')

  -- The hash that is stored and the secret that is shown once; a public client has neither.
  unfoldable pub new_secret : TokenEndpointAuthMethod → Exec (String × String)
  new_secret method = if is_none_method method then pure ("", "") else (do
    secret ← or_internal at.random
    hash ← or_internal (at.hash_password secret)
    pure (hash, secret))

  -- The parts of the form, parsed in order.
  unfoldable pub parse_client : CreateClientInput → Exec OauthClient
  parse_client input = do
    redirect_uris ← lift (parse_redirect_uri_list dep.library input.redirect_uri)
    android_package ← lift (parse_android_package dep.library input.android_package)
    mode ← lift (parse_access_mode input.access_mode)
    method ← lift (parse_token_endpoint_auth_method input.token_endpoint_auth_method)
    pure (record {
      id = "";
      client_id = input.client_id;
      client_secret_hash = "";
      name = input.name;
      redirect_uris = redirect_uris;
      access_mode = mode;
      token_endpoint_auth_method = method;
      android_package = android_package;
    })

  unfoldable pub create_client : User → CreateClientInput → Exec CreateClientResult
  create_client actor input = do
    guard (is_admin actor) forbidden
    guard (not (input.client_id == "" || (input.name == "" || input.redirect_uri == "")))
        (validation_error "client" "client_id, name and redirect_uri are required")
    parsed ← parse_client input
    require_absent input.client_id
    secret ← new_secret parsed.token_endpoint_auth_method
    let client = record parsed { client_secret_hash = secret.0 }
    Clients.upsert at client
    pure (record { client = client; client_secret = secret.1 })

  unfoldable pub set_access_mode : User → (client_id mode : String) → Exec (Unit {0})
  set_access_mode actor client_id mode_raw = do
    guard (is_admin actor) forbidden
    mode ← lift (parse_access_mode mode_raw)
    Clients.update_access_mode at client_id mode

  unfoldable pub update_redirect_uris :
      User → (client_id uris android_package : String) → Exec (Unit {0})
  update_redirect_uris actor raw_client_id raw_uris android_package = do
    guard (is_admin actor) forbidden
    let client_id = dep.trim_space raw_client_id
    guard (not (client_id == "")) (validation_error "client_id" "client_id is required")
    uris ← lift (parse_redirect_uri_list dep.library raw_uris)
    pkg ← lift (parse_android_package dep.library android_package)
    if_not_found (validation_error "client_id" "client not found")
        (Clients.update_redirect_uris at client_id uris pkg)
