-- ===== src/Platform/Config.antt =====
-- internal/platform/config/config.go
pub mod Production
use kde_auth.Prelude.{String, Bool, Option, none, some, ◌&&◌, ◌||◌, not, ◌==◌, if◌then◌else◌}
use kde_auth.Http.AppLinks.{contains_text}

-- The result of a step, or the text of its error.
pub data Load (A : Type 0) : Type 0 where
  loaded : A → Load A
  refused : String → Load A

infixl 5 ◌>>=◌ ◌>>◌
unfoldable pub ◌>>=◌ : {A B : Type 0} → Load A → (A → Load B) → Load B
loaded a >>= next = next a
refused reason >>= next = refused reason

abbrev pub ◌>>◌ : {B : Type 0} → Load (Unit {0}) → Load B → Load B
check >> next = check >>= λ _. next

unfoldable pub require : Bool → String → Load (Unit {0})
require b reason = if b then loaded tt else refused reason

-- The surroundings of the process. A number is what strconv.Atoi makes of a text.
pub record Environment (Number : Type 0) : Type 0 where
  -- os.Getenv, "" where the variable is not set
  pub getenv : String → String
  -- os.ReadFile
  pub read_file : String → Option String
  pub atoi : String → Option Number
  -- strings.TrimRight(s, "/")
  pub trim_slashes : String → String
  -- The private and the public key of generateDevRSAKeys
  pub dev_keys : Option (String × String)

pub record Config (Number : Type 0) : Type 0 where
  pub port : Number
  pub issuer : String
  pub database_url : String
  pub migrations_path : String
  pub registration_open : Bool
  pub cookie_secure : Bool
  pub session_ttl : Number
  pub jwt_private_key : String
  pub jwt_public_key : String
  pub oauth_client_id : String
  pub oauth_client_secret : String
  pub oauth_client_name : String
  pub oauth_redirect_uri : String
  pub smtp_host : String
  pub smtp_port : Number
  pub smtp_user : String
  pub smtp_password : String
  pub smtp_from : String
  pub turnstile_secret : String
  pub turnstile_site_key : String

unfoldable pub is_local_issuer : String → Bool
is_local_issuer issuer = contains_text issuer "localhost" || contains_text issuer "127.0.0.1"

module _ {Number : Type 0} (env : Environment Number) where
  abbrev pub get_env : (key fallback : String) → String
  get_env key fallback = if env.getenv key == "" then fallback else env.getenv key

  abbrev parsed : String → Option Number → Load Number
  parsed key none = refused key
  parsed key (some n) = loaded n

  unfoldable pub number : (key fallback : String) → Load Number
  number key fallback = parsed key (env.atoi (get_env key fallback))

  abbrev contents : String → Option String → Load String
  contents key none = refused key
  contents key (some text) = loaded text

  unfoldable pub pem_from_env_or_file : (value_key file_key : String) → Load String
  pem_from_env_or_file value_key file_key =
      if not (env.getenv value_key == "")
      then loaded (env.getenv value_key)
      else if env.getenv file_key == ""
      then loaded ""
      else contents file_key (env.read_file (env.getenv file_key))

  -- A key that the environment does not give is read from its file.
  unfoldable pub key_or_file : (given value_key file_key : String) → Load String
  key_or_file given value_key file_key =
      if given == "" then pem_from_env_or_file value_key file_key else loaded given

  abbrev generated : Option (String × String) → Load (String × String)
  generated none = refused "generate dev JWT keys"
  generated (some keys) = loaded keys

  unfoldable pub complete_keys : (issuer private public : String) → Load (String × String)
  complete_keys issuer private public =
      if private == "" || public == ""
      then if not (is_local_issuer issuer)
        then refused "JWT keys are required in production (JWT_* or JWT_*_FILE)"
        else generated env.dev_keys
      else loaded (private, public)

  unfoldable pub complete_secret : (issuer secret : String) → Load String
  complete_secret issuer secret =
      if secret == ""
      then if is_local_issuer issuer
        then loaded "dev-secret-change-me-16"
        else refused "OAUTH_CLIENT_SECRET is required"
      else loaded secret

  unfoldable pub complete_redirect : (issuer redirect_uri : String) → String
  complete_redirect issuer redirect_uri =
      if redirect_uri == "" && is_local_issuer issuer
      then "http://localhost:4322/auth/callback"
      else redirect_uri

  -- The values of the environment, before the checks.
  abbrev pub first_config : Number → Number → Number → Config Number
  first_config port smtp_port session_ttl = record {
    port = port;
    issuer = env.trim_slashes (env.getenv "ISSUER");
    database_url = env.getenv "DATABASE_URL";
    migrations_path = get_env "MIGRATIONS_PATH" "migrations";
    registration_open = not (env.getenv "REGISTRATION_OPEN" == "false");
    cookie_secure = env.getenv "COOKIE_SECURE" == "true";
    session_ttl = session_ttl;
    jwt_private_key = env.getenv "JWT_PRIVATE_KEY";
    jwt_public_key = env.getenv "JWT_PUBLIC_KEY";
    oauth_client_id = get_env "OAUTH_CLIENT_ID" "dept-app";
    oauth_client_secret = env.getenv "OAUTH_CLIENT_SECRET";
    oauth_client_name = get_env "OAUTH_CLIENT_NAME" "Department App";
    oauth_redirect_uri = env.getenv "OAUTH_REDIRECT_URI";
    smtp_host = env.getenv "SMTP_HOST";
    smtp_port = smtp_port;
    smtp_user = env.getenv "SMTP_USER";
    smtp_password = env.getenv "SMTP_PASSWORD";
    smtp_from = env.getenv "SMTP_FROM";
    turnstile_secret = env.getenv "TURNSTILE_SECRET";
    turnstile_site_key = env.getenv "TURNSTILE_SITE_KEY";
  }

  -- The checks, and the values that depend on them.
  unfoldable pub completed : Config Number → Load (Config Number)
  completed cfg = do
    require (not (cfg.issuer == "")) "ISSUER is required"
    require (not (cfg.database_url == "")) "DATABASE_URL is required"
    require
        (is_local_issuer cfg.issuer
          || not (cfg.turnstile_secret == "" || cfg.turnstile_site_key == ""))
        "TURNSTILE_SECRET and TURNSTILE_SITE_KEY are required in production"
    private ← key_or_file cfg.jwt_private_key "JWT_PRIVATE_KEY" "JWT_PRIVATE_KEY_FILE"
    public ← key_or_file cfg.jwt_public_key "JWT_PUBLIC_KEY" "JWT_PUBLIC_KEY_FILE"
    keys ← complete_keys cfg.issuer private public
    secret ← complete_secret cfg.issuer cfg.oauth_client_secret
    loaded (record cfg {
      jwt_private_key = keys.0;
      jwt_public_key = keys.1;
      oauth_client_secret = secret;
      oauth_redirect_uri = complete_redirect cfg.issuer cfg.oauth_redirect_uri;
    })

  unfoldable pub load : Load (Config Number)
  load = do
    port ← number "PORT" "3001"
    smtp_port ← number "SMTP_PORT" "587"
    session_ttl ← number "SESSION_TTL_HOURS" "24"
    completed (first_config port smtp_port session_ttl)
