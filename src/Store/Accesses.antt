-- ===== src/Store/Accesses.antt =====
-- internal/adapter/postgres/app_access_repo.go
use kde_auth.Prelude.{
  String, Bool, [], ◌∷◌, ◌++◌, ◌&&◌, not, ◌==◌, exists, update_where, if◌then◌else◌,
}
use kde_auth.Domain.Errors.{ok}
use kde_auth.Domain.User.{UserAppAccess}
use kde_auth.Port.{Moment, accesses_upsert, accesses_has}
use kde_auth.State.{State}
use kde_auth.Exec.{Exec, gets, transaction, write}

abbrev pub access_to : String → String → UserAppAccess → Bool
access_to id client_id a = a.user_id == id && a.client_id == client_id

-- ON CONFLICT (user_id, client_id) DO UPDATE
abbrev pub refreshed : UserAppAccess → UserAppAccess → UserAppAccess
refreshed a old = record old {
  last_seen_at = a.last_seen_at;
  entry_domain = if not (a.entry_domain == "") then a.entry_domain else old.entry_domain;
}

-- first_seen_at takes the fourth argument too.
abbrev pub upserted : UserAppAccess → State → State
upserted a s =
    if exists (access_to a.user_id a.client_id) s.accesses
    then record s {
      accesses = update_where (access_to a.user_id a.client_id) (refreshed a) s.accesses;
    }
    else record s { accesses = s.accesses ++ record a { first_seen_at = a.last_seen_at } ∷ [] }

module _ (at : Moment) where
  unfoldable pub upsert : UserAppAccess → Exec (Unit {0})
  upsert a = transaction at accesses_upsert (write (upserted a))

  unfoldable pub has_access : String → String → Exec Bool
  has_access id client_id =
      transaction at accesses_has (gets (λ s. ok (exists (access_to id client_id) s.accesses)))
