-- ===== src/Http/Documents.antt =====
-- internal/adapter/http/handler/health.go and oidc.go, OIDCMetadata of internal/usecase/oauth.go,
-- and the key set of internal/adapter/crypto/rsa_jwt.go
use kde_auth.Prelude.{String, List, [], ◌∷◌, concat, if◌then◌else◌}
use kde_auth.Platform.Crypto.{big_int_to_bytes}
use kde_auth.Http.{Site, Json, text, texts, key_set, Response}
use kde_auth.Http.Replies.{write_json}

module _ (site : Site) where
  unfoldable pub serve_health : Response
  serve_health =
      if site.pings
      then write_json 200 (("status", text "ok") ∷ ("service", text "kde-auth") ∷ [])
      else write_json 503 (("status", text "error") ∷ ("service", text "kde-auth") ∷ [])

  unfoldable pub oidc_metadata : List (String × Json)
  oidc_metadata =
      ("issuer", text site.issuer)
      ∷ ("authorization_endpoint", text (concat site.issuer "/authorize"))
      ∷ ("token_endpoint", text (concat site.issuer "/token"))
      ∷ ("userinfo_endpoint", text (concat site.issuer "/userinfo"))
      ∷ ("jwks_uri", text (concat site.issuer "/jwks"))
      ∷ ("response_types_supported", texts ("code" ∷ []))
      ∷ ("grant_types_supported", texts ("authorization_code" ∷ "refresh_token" ∷ []))
      ∷ ("subject_types_supported", texts ("public" ∷ []))
      ∷ ("scopes_supported", texts ("openid" ∷ "email" ∷ "offline_access" ∷ []))
      ∷ ("token_endpoint_auth_methods_supported", texts ("client_secret_post" ∷ "none" ∷ []))
      ∷ ("code_challenge_methods_supported", texts ("S256" ∷ []))
      ∷ []

  unfoldable pub serve_discovery : Response
  serve_discovery = write_json 200 oidc_metadata

  -- RSAIssuer.JWKS gives no error.
  unfoldable pub jwks : List (String × Json)
  jwks =
      (
        "keys",
        key_set (
            ("kty", "RSA")
            ∷ ("use", "sig")
            ∷ ("alg", "RS256")
            ∷ ("kid", "kde-auth-1")
            ∷ ("n", site.base64_url site.modulus)
            ∷ ("e", site.base64_url (big_int_to_bytes site.exponent))
            ∷ []),
      )
      ∷ []

  unfoldable pub serve_jwks : Response
  serve_jwks = write_json 200 jwks
