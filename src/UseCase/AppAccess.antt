-- ===== src/UseCase/AppAccess.antt =====
-- internal/usecase/admin.go: RecordAppAccess
use kde_auth.Prelude.{String, Option, none, some, ◌||◌, ◌==◌, if◌then◌else◌}
use kde_auth.Domain.Library.{Url}
use kde_auth.Port.{Deployment, Moment}
use kde_auth.Exec.{Exec, pure}
use kde_auth.Store.Accesses

abbrev host_of : Deployment → Option Url → String
host_of dep none = ""
host_of dep (some u) = dep.to_lower u.hostname

unfoldable pub host_from_uri : Deployment → String → String
host_from_uri dep raw = host_of dep (dep.parse_url raw)

module _ (dep : Deployment) (at : Moment) where
  unfoldable pub record_access : String → String → String → Exec (Unit {0})
  unfolding host_from_uri
  record_access id client_id redirect_uri =
      if id == "" || client_id == ""
      then pure tt
      else Accesses.upsert at (record {
        user_id = id;
        client_id = client_id;
        entry_domain = host_from_uri dep redirect_uri;
        first_seen_at = at.now;
        last_seen_at = at.now;
      })
