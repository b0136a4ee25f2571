-- ===== src/Tests/StartUp.antt =====
-- The start of the program at concrete inputs.
use kde_auth.Prelude.{
  ◌∙◌, ◌<◌, All, length, ℕ, ◌≡◌, refl, String, true, false, some, none, [], ◌∷◌, ◌==◌,
  if◌then◌else◌,
}
use kde_auth.Platform.Config.{
  Environment, Config, loaded, load, number, completed, require, key_or_file, complete_keys,
  complete_secret, complete_redirect, is_local_issuer, ◌>>=◌,
}
use kde_auth.Platform.Config.Production.{IsProduction, load-IsProduction}
use kde_auth.Platform.Crypto.{
  big_int_to_bytes, subtle_constant_time_compare, ArgonLibrary, Decoded, decode_argon2id, verify,
}
use kde_auth.Platform.Crypto.Bytes.{value_behind, big_int_to_bytes-value_behind}
use kde_auth.Platform.Crypto.Verification.{
  bytes_equal, subtle_constant_time_compare-bytes_equal, verify-id_key,
}
use kde_auth.Platform.Migrate.{Database, Surroundings, migrate, apply_file, is_applied}
use kde_auth.Platform.Migrate.Rerun.{migrate-rerun}

abbrev value_of : String → String
value_of key =
    if key == "ISSUER"
    then "https://auth.example"
    else if key == "DATABASE_URL"
    then "postgres://db"
    else if key == "OAUTH_CLIENT_SECRET"
    then "s3cret"
    else if key == "TURNSTILE_SECRET"
    then "t1"
    else if key == "TURNSTILE_SITE_KEY"
    then "t2"
    else if key == "JWT_PRIVATE_KEY"
    then "p1"
    else if key == "JWT_PUBLIC_KEY"
    then "p2"
    else ""

abbrev environment : Environment ℕ
environment = record {
  getenv = value_of;
  read_file = λ name. none;
  atoi = λ text. some 1;
  trim_slashes = λ s. s;
  dev_keys = none;
}

abbrev config : Config ℕ
config = record {
  port = 1;
  issuer = "https://auth.example";
  database_url = "postgres://db";
  migrations_path = "migrations";
  registration_open = true;
  cookie_secure = false;
  session_ttl = 1;
  jwt_private_key = "p1";
  jwt_public_key = "p2";
  oauth_client_id = "dept-app";
  oauth_client_secret = "s3cret";
  oauth_client_name = "Department App";
  oauth_redirect_uri = "";
  smtp_host = "";
  smtp_port = 1;
  smtp_user = "";
  smtp_password = "";
  smtp_from = "";
  turnstile_secret = "t1";
  turnstile_site_key = "t2";
}

config_run : load environment ≡ loaded config
unfolding load number completed require key_or_file complete_keys complete_secret complete_redirect
    is_local_issuer ◌>>=◌
config_run = refl

remote : is_local_issuer config.issuer ≡ false
unfolding is_local_issuer
remote = refl

load-IsProduction_example : IsProduction environment config
load-IsProduction_example = load-IsProduction environment config config_run remote

abbrev surroundings : Surroundings
surroundings = record {
  entries = some (
      (record { name = "000001_init.sql"; is_dir = false })
      ∷ (record { name = "notes"; is_dir = true })
      ∷ []);
  read_file = λ name. some "CREATE TABLE users ()";
  precedes = λ a b. true;
  table_ready = true;
  looked_up = λ version. true;
  runs = λ script. true;
  recorded = λ version. true;
}

abbrev fresh : Database
fresh = record { versions = []; scripts = [] }

abbrev migrated : Database
migrated = record { versions = "000001_init" ∷ []; scripts = "CREATE TABLE users ()" ∷ [] }

migrate_run : migrate surroundings fresh ≡ (true, migrated)
unfolding migrate apply_file is_applied
migrate_run = refl

migrate-rerun_example : migrate surroundings migrated ≡ (true, migrated)
migrate-rerun_example = migrate-rerun surroundings fresh migrated migrate_run

big_int_to_bytes-value_behind_example :
    (value_behind 0 (big_int_to_bytes 65537) ≡ 65537) × All (λ b. b < 256) (big_int_to_bytes 65537)
big_int_to_bytes-value_behind_example = big_int_to_bytes-value_behind 65537

subtle_constant_time_compare-bytes_equal_example :
    subtle_constant_time_compare (7 ∷ 9 ∷ []) (7 ∷ 8 ∷ []) ≡ bytes_equal (7 ∷ 9 ∷ []) (7 ∷ 8 ∷ [])
subtle_constant_time_compare-bytes_equal_example =
    subtle_constant_time_compare-bytes_equal (7 ∷ 9 ∷ []) (7 ∷ 8 ∷ [])

abbrev argon : ArgonLibrary
argon = record {
  split = λ s. "" ∷ "argon2id" ∷ "v=19" ∷ "m=65536,t=2,p=4" ∷ "salt" ∷ "hash" ∷ [];
  scan_version = λ s. some 19;
  scan_params = λ s. some (record { memory = 65536; time = 2; threads = 4 });
  decode_base64 = λ s. some (7 ∷ 9 ∷ []);
  id_key = λ password salt params n. salt;
}

verified : verify argon "stored" "password" ≡ true
unfolding verify decode_argon2id subtle_constant_time_compare
verified = subtle_constant_time_compare-bytes_equal (7 ∷ 9 ∷ []) (7 ∷ 9 ∷ []) ∙ same_bytes
  where
    same_bytes : bytes_equal (7 ∷ 9 ∷ []) (7 ∷ 9 ∷ []) ≡ true
    same_bytes = refl

verify-id_key_example :
    (d : Decoded) × (decode_argon2id argon "stored" ≡ some d)
    × (bytes_equal d.hash (argon.id_key "password" d.salt d.params (length d.hash)) ≡ true)
verify-id_key_example = verify-id_key argon "stored" "password" verified
