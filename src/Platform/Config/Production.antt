-- ===== src/Platform/Config/Production.antt =====
-- What a configuration that was loaded has.
use kde_auth.Prelude.{
  not-true, ◌⊎◌, some, eq_iff, Option-cases, ◌≡◌, ◌≢◌, refl, sym, ap, ◌∙◌, subst, String, Bool,
  true, false, not, ◌||◌, ◌==◌, Bool-cases, inl, inr, ne_of_test, arith, or_false_left,
  or_false_right,
}
use kde_auth.Platform.Config.{
  Load, loaded, refused, ◌>>=◌, ◌>>◌, require, Environment, Config, is_local_issuer, complete_keys,
  complete_secret, complete_redirect, pem_from_env_or_file, key_or_file, first_config, completed,
  load,
}

module _ {A B : Type 0} where
  loaded-ne-refused : {a : A} {reason : String} → refused reason ≡ loaded a → B
  loaded-ne-refused h = absurd (ground arith)

  bind_loaded :
      (m : Load A) (f : A → Load B) {b : B}
      → (m >>= f) ≡ loaded b
      → (a : A) × (m ≡ loaded a) × (f a ≡ loaded b)
  unfolding ◌>>=◌
  bind_loaded (loaded a) f h = (a, refl, h)
  bind_loaded (refused reason) f h = absurd (ground arith)

loaded_injective : {A : Type 0} {a b : A} → loaded a ≡ loaded b → a ≡ b
loaded_injective h = cc

require_loaded :
    {A : Type 0} (b : Bool) (reason : String) (n : Load A) {a : A}
    → (require b reason >> n) ≡ loaded a
    → (b ≡ true) × (n ≡ loaded a)
unfolding ◌>>=◌ require
require_loaded true reason n h = (refl, h)
require_loaded false reason n h = absurd (ground arith)

module _ {Number : Type 0} (env : Environment Number) where
  -- The text of the variable, or where it is empty, of the file that the other variable names.
  abbrev pub IsGiven : (value_key file_key key : String) → Type 0
  IsGiven value_key file_key key =
      (key ≡ env.getenv value_key)
      ⊎ ((env.getenv value_key ≡ "") × (env.read_file (env.getenv file_key) ≡ some key))

  pem_from_env_or_file-IsGiven :
      (value_key file_key key : String)
      → pem_from_env_or_file env value_key file_key ≡ loaded key
      → IsGiven value_key file_key key
  unfolding pem_from_env_or_file
  pem_from_env_or_file-IsGiven value_key file_key key h =
      elim (Bool-cases (env.getenv value_key == "")) [
        | inr given ↦ inl (ground arith)
        | inl lacking ↦
            let empty = (eq_iff (env.getenv value_key) "").0 lacking in
            elim (Bool-cases (env.getenv file_key == "")) [
              | inl no_file ↦ inl (ground (arith, empty))
              | inr named ↦ elim (Option-cases (env.read_file (env.getenv file_key))) [
                | inl unread ↦ absurd (ground arith)
                | inr (text, found) ↦ inr (empty, found ∙ ap some (ground arith))
              ]
            ]
      ]

  key_or_file-IsGiven :
      (value_key file_key given key : String)
      → given ≡ env.getenv value_key
      → key_or_file env given value_key file_key ≡ loaded key
      → IsGiven value_key file_key key
  unfolding key_or_file
  key_or_file-IsGiven value_key file_key given key same h = elim (Bool-cases (given == "")) [
    | inl lacking ↦ pem_from_env_or_file-IsGiven value_key file_key key (ground arith)
    | inr there ↦ inl (ground (arith, same))
  ]

  complete_redirect_given :
      (issuer given : String)
      → is_local_issuer issuer ≡ false
      → complete_redirect env issuer given ≡ given
  unfolding complete_redirect
  complete_redirect_given issuer given remote = ground arith

  complete_keys_given :
      (issuer private public : String) (keys : String × String)
      → is_local_issuer issuer ≡ false
      → complete_keys env issuer private public ≡ loaded keys
      → (keys.0 ≢ "") × (keys.1 ≢ "") × (private ≡ keys.0) × (public ≡ keys.1)
  unfolding complete_keys
  complete_keys_given issuer private public keys remote h =
      elim (Bool-cases (private == "" || public == "")) [
        | inl lacking ↦ absurd (ground arith)
        | inr given ↦
            let same : (private ≡ keys.0) × (public ≡ keys.1) = ground arith in
            let first = ne_of_test private "" (or_false_left _ _ given) in
            let second = ne_of_test public "" (or_false_right _ _ given) in
            (
              subst (λ (k : String). k ≢ "") same.0 first,
              subst (λ (k : String). k ≢ "") same.1 second,
              same.0,
              same.1,
            )
      ]

  complete_secret_given :
      (issuer given secret : String)
      → is_local_issuer issuer ≡ false
      → complete_secret env issuer given ≡ loaded secret
      → (secret ≢ "") × (secret ≡ given)
  unfolding complete_secret
  complete_secret_given issuer given secret remote h = elim (Bool-cases (given == "")) [
    | inl lacking ↦ absurd (ground arith)
    | inr there ↦
        let same : given ≡ secret = ground arith in
        (subst (λ (k : String). k ≢ "") same (ne_of_test given "" there), sym same)
  ]

  -- What the start needs, where the issuer is no local one.
  abbrev pub IsProduction : Config Number → Type 0
  IsProduction cfg =
      (cfg.issuer ≢ "")
      × (cfg.database_url ≢ "")
      × (cfg.turnstile_secret ≢ "")
      × (cfg.turnstile_site_key ≢ "")
      × (cfg.jwt_private_key ≢ "")
      × IsGiven "JWT_PRIVATE_KEY" "JWT_PRIVATE_KEY_FILE" cfg.jwt_private_key
      × (cfg.jwt_public_key ≢ "")
      × IsGiven "JWT_PUBLIC_KEY" "JWT_PUBLIC_KEY_FILE" cfg.jwt_public_key
      × (cfg.oauth_client_secret ≢ "")
      × (cfg.oauth_client_secret ≡ env.getenv "OAUTH_CLIENT_SECRET")
      × (cfg.oauth_redirect_uri ≡ env.getenv "OAUTH_REDIRECT_URI")

  not_empty : (s : String) → not (s == "") ≡ true → s ≢ ""
  not_empty s h = ne_of_test s "" (ground arith)

  completed-IsProduction :
      (base cfg : Config Number)
      → base.oauth_client_secret ≡ env.getenv "OAUTH_CLIENT_SECRET"
      → base.oauth_redirect_uri ≡ env.getenv "OAUTH_REDIRECT_URI"
      → base.jwt_private_key ≡ env.getenv "JWT_PRIVATE_KEY"
      → base.jwt_public_key ≡ env.getenv "JWT_PUBLIC_KEY"
      → is_local_issuer cfg.issuer ≡ false
      → completed env base ≡ loaded cfg
      → IsProduction cfg
  unfolding completed
  completed-IsProduction base cfg secret_given redirect_given first_given second_given remote h =
      let (issuer, h₁) = require_loaded _ _ _ h in
      let (database, h₂) = require_loaded _ _ _ h₁ in
      let (captcha, h₃) = require_loaded _ _ _ h₂ in
      let (private, read, h₄) = bind_loaded _ _ h₃ in
      let (public, read', h₅) = bind_loaded _ _ h₄ in
      let (keys, made, h₆) = bind_loaded _ _ h₅ in
      let (secret, chosen, h₇) = bind_loaded _ _ h₆ in
      let result = loaded_injective h₇ in
      let same_issuer = ap (λ (c : Config Number). c.issuer) result in
      let local = subst (λ (i : String). is_local_issuer i ≡ false) (sym same_issuer) remote in
      let site_keys =
        subst
          (λ (b : Bool).
            (b || not (base.turnstile_secret == "" || base.turnstile_site_key == "")) ≡ true)
          local captcha in
      let (first, second, same₁, same₂) =
        complete_keys_given base.issuer private public keys local made in
      let (there, same) =
        complete_secret_given base.issuer base.oauth_client_secret secret local chosen in
      subst IsProduction result (
        not_empty base.issuer issuer,
        not_empty base.database_url database,
        ne_of_test base.turnstile_secret "" (or_false_left _ _ (not-true _ site_keys)),
        ne_of_test base.turnstile_site_key "" (or_false_right _ _ (not-true _ site_keys)),
        first,
        subst (IsGiven "JWT_PRIVATE_KEY" "JWT_PRIVATE_KEY_FILE") same₁
            (key_or_file-IsGiven _ _ base.jwt_private_key private first_given read),
        second,
        subst (IsGiven "JWT_PUBLIC_KEY" "JWT_PUBLIC_KEY_FILE") same₂
            (key_or_file-IsGiven _ _ base.jwt_public_key public second_given read'),
        there,
        same ∙ secret_given,
        complete_redirect_given base.issuer base.oauth_redirect_uri local ∙ redirect_given,
      )

  -- A configuration that was loaded and whose issuer is no local one has an issuer, a database,
  -- the keys of the captcha, both signing keys, each from its variable or its file, and the client
  -- secret and the redirect URI that the environment gives, the URI possibly empty: no generated
  -- key, and neither the secret nor the URI for development, is put in their place.
  pub load-IsProduction :
      (cfg : Config Number)
      → load env ≡ loaded cfg
      → is_local_issuer cfg.issuer ≡ false
      → IsProduction cfg
  unfolding load
  load-IsProduction cfg h remote =
      let (port, _, h₁) = bind_loaded _ _ h in
      let (smtp_port, _, h₂) = bind_loaded _ _ h₁ in
      let (session_ttl, _, h₃) = bind_loaded _ _ h₂ in
      completed-IsProduction (first_config env port smtp_port session_ttl) cfg refl refl refl refl
        remote h₃
