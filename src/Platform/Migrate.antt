-- ===== src/Platform/Migrate.antt =====
-- internal/adapter/postgres/migrate.go and seed.go
pub mod Rerun
use Prim.Native.String.{slice}
use kde_auth.Prelude.{
  ◌-◌, String, len, Bool, true, false, Option, none, some, List, [], ◌∷◌, ◌++◌, ◌&&◌, ◌||◌, not,
  ◌==◌, leb, exists, order_by, select_where, map, if◌then◌else◌,
}
use kde_auth.Domain.Client.{OauthClient, AccessMode, TokenEndpointAuthMethod}
use kde_auth.Port.{Moment}
use kde_auth.Exec.{Exec, or_internal, ◌>>=◌}
use kde_auth.Store.Clients

-- The table schema_migrations, and the scripts that ran, in order.
pub record Database : Type 0 where
  pub versions : List String
  pub scripts : List String

pub record Entry : Type 0 where
  pub name : String
  pub is_dir : Bool

-- The directory and the driver.
pub record Surroundings : Type 0 where
  -- os.ReadDir, unless it fails
  pub entries : Option (List Entry)
  -- os.ReadFile
  pub read_file : String → Option String
  -- The order of sort.Strings
  pub precedes : String → String → Bool
  -- Whether the table can be created or is there, a version looked up, a script run, a version recorded
  pub table_ready : Bool
  pub looked_up : String → Bool
  pub runs : String → Bool
  pub recorded : String → Bool

-- strings.HasSuffix(name, ".sql") and strings.TrimSuffix(name, ".sql")
abbrev pub is_script : String → Bool
is_script name = leb 4 (len name) && slice name (len name - 4) (len name) == ".sql"

abbrev pub version_of : String → String
version_of name = slice name 0 (len name - 4)

module _ (env : Surroundings) where
  abbrev pub script_files : List Entry → List String
  script_files entries =
      order_by env.precedes
        (map (λ e. e.name) (select_where (λ e. not e.is_dir && is_script e.name) entries))

  unfoldable pub is_applied : String → Database → Bool
  is_applied version db = exists (λ v. v == version) db.versions

  abbrev pub with_version : String → String → Database → Database
  with_version version script db = record {
    versions = db.versions ++ version ∷ [];
    scripts = db.scripts ++ script ∷ [];
  }

  -- A script that is not applied yet; `false` is the error of the source.
  abbrev pub applied_script : String → Option String → Database → Bool × Database
  applied_script version none db = (false, db)
  applied_script version (some script) db =
      if not (env.runs script)
      then (false, db)
      else if not (env.recorded version)
      then (false, record db { scripts = db.scripts ++ script ∷ [] })
      else (true, with_version version script db)

  -- One turn of the loop.
  unfoldable pub apply_file : String → Database → Bool × Database
  apply_file name db =
      let version = version_of name in
      if not (env.looked_up version)
      then (false, db)
      else if is_applied version db
      then (true, db)
      else applied_script version (env.read_file name) db

  abbrev pub continue : Bool × Database → Bool × Database → Bool × Database
  continue (true, _) rest = rest
  continue (false, db) rest = (false, db)

  pub apply_files : List String → Database → Bool × Database
  apply_files [] db = (true, db)
  apply_files (name ∷ names) db =
      let first = apply_file name db in let rest = apply_files names first.1 in continue first rest

  abbrev pub of_entries : Option (List Entry) → Database → Bool × Database
  of_entries none db = (false, db)
  of_entries (some entries) db = apply_files (script_files entries) db

  unfoldable pub migrate : Database → Bool × Database
  unfolding apply_files
  migrate db = if not env.table_ready then (false, db) else of_entries env.entries db

pub record OauthClientSeed : Type 0 where
  pub client_id : String
  pub client_secret : String
  pub name : String
  pub redirect_uri : String

abbrev pub seeded : OauthClientSeed → String → OauthClient
seeded input secret_hash = record {
  id = "";
  client_id = input.client_id;
  client_secret_hash = secret_hash;
  name = input.name;
  redirect_uris = input.redirect_uri ∷ [];
  access_mode = AccessMode.public;
  token_endpoint_auth_method = TokenEndpointAuthMethod.client_secret_post;
  android_package = "";
}

-- A client that is there keeps its access mode: Upsert does not write it.
unfoldable pub seed_client : Moment → OauthClientSeed → Exec (Unit {0})
seed_client at input = do
  secret_hash ← or_internal (at.hash_password input.client_secret)
  Clients.upsert at (seeded input secret_hash)
