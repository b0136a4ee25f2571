-- ===== src/Domain/Client.antt =====
-- internal/domain/client.go: OAuth clients
use kde_auth.Prelude.{String, Bool, true, false, List, [], ◌∷◌, ◌==◌, if◌then◌else◌}
use kde_auth.Domain.Errors.{Result, ok, err, validation_error}

pub data AccessMode : Type 0 where
  public invite_only : AccessMode

unfoldable pub parse_access_mode : String → Result AccessMode
parse_access_mode raw =
    if raw == "public"
    then ok public
    else if raw == "invite_only"
    then ok invite_only
    else if raw == ""
    then ok public
    else err (validation_error "access_mode" "must be public or invite_only")

pub data TokenEndpointAuthMethod : Type 0 where
  client_secret_post auth_none : TokenEndpointAuthMethod

unfoldable pub parse_token_endpoint_auth_method : String → Result TokenEndpointAuthMethod
parse_token_endpoint_auth_method raw =
    if raw == "client_secret_post"
    then ok client_secret_post
    else if raw == "none"
    then ok auth_none
    else if raw == ""
    then ok client_secret_post
    else err (validation_error "token_endpoint_auth_method" "must be client_secret_post or none")

pub record OauthClient : Type 0 where
  pub id : String
  pub client_id : String
  pub client_secret_hash : String
  pub name : String
  pub redirect_uris : List String
  pub access_mode : AccessMode
  pub token_endpoint_auth_method : TokenEndpointAuthMethod
  pub android_package : String

unfoldable pub contains : List String → String → Bool
contains [] uri = false
contains (allowed ∷ rest) uri = if allowed == uri then true else contains rest uri

unfoldable pub allows_redirect_uri : OauthClient → String → Bool
unfolding contains
allows_redirect_uri c uri = contains c.redirect_uris uri

abbrev is_invite_only_mode : AccessMode → Bool
is_invite_only_mode invite_only = true
is_invite_only_mode public = false

unfoldable pub is_invite_only : OauthClient → Bool
is_invite_only c = is_invite_only_mode c.access_mode

abbrev pub is_none_method : TokenEndpointAuthMethod → Bool
is_none_method auth_none = true
is_none_method client_secret_post = false

unfoldable pub is_public : OauthClient → Bool
is_public c = is_none_method c.token_endpoint_auth_method
