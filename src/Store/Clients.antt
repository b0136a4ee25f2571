-- ===== src/Store/Clients.antt =====
-- internal/adapter/postgres/client_repo.go. The stored mode and method are values of the two
-- enumerations, which is what every writer stores; so reading them back does not fail.
use kde_auth.Prelude.{
  String, Bool, List, [], ◌∷◌, ◌++◌, ◌==◌, find, exists, update_where, if◌then◌else◌,
}
use kde_auth.Domain.Errors.{ok, not_found}
use kde_auth.Domain.Client.{OauthClient, AccessMode}
use kde_auth.Port.{
  Moment, clients_by_id, clients_list, clients_upsert, clients_access_mode, clients_redirects,
}
use kde_auth.State.{State}
use kde_auth.Exec.{Exec, gets, transaction, select_row, write, guard, ◌>>=◌, ◌>>◌}

abbrev pub client_named : String → OauthClient → Bool
client_named client_id c = c.client_id == client_id

-- ON CONFLICT (client_id) DO UPDATE: the access mode stays.
abbrev pub replaced_by : OauthClient → OauthClient → OauthClient
replaced_by c old = record old {
  client_secret_hash = c.client_secret_hash;
  name = c.name;
  redirect_uris = c.redirect_uris;
  token_endpoint_auth_method = c.token_endpoint_auth_method;
  android_package = c.android_package;
}

abbrev pub with_access_mode : AccessMode → OauthClient → OauthClient
with_access_mode mode c = record c { access_mode = mode }

abbrev pub with_redirects : List String → String → OauthClient → OauthClient
with_redirects uris pkg c = record c { redirect_uris = uris; android_package = pkg }

module _ (at : Moment) where
  unfoldable pub by_client_id : String → Exec OauthClient
  by_client_id client_id =
      transaction at clients_by_id (select_row (λ s. find (client_named client_id) s.clients))

  -- Rows stand in the order of their creation.
  unfoldable pub list : Exec (List OauthClient)
  list = transaction at clients_list (gets (λ s. ok s.clients))

  abbrev pub upserted : OauthClient → State → State
  upserted c s =
      if exists (client_named c.client_id) s.clients
      then record s { clients = update_where (client_named c.client_id) (replaced_by c) s.clients }
      else record s { clients = s.clients ++ record c { id = at.uuid } ∷ [] }

  unfoldable pub upsert : OauthClient → Exec (Unit {0})
  upsert c = transaction at clients_upsert (write (upserted c))

  unfoldable pub update_access_mode : String → AccessMode → Exec (Unit {0})
  update_access_mode client_id mode = transaction at clients_access_mode (do
    known ← gets (λ s. ok (exists (client_named client_id) s.clients))
    guard known not_found
    write (λ s. record s {
      clients = update_where (client_named client_id) (with_access_mode mode) s.clients;
    }))

  unfoldable pub update_redirect_uris : String → List String → String → Exec (Unit {0})
  update_redirect_uris client_id uris pkg = transaction at clients_redirects (do
    known ← gets (λ s. ok (exists (client_named client_id) s.clients))
    guard known not_found
    write (λ s. record s {
      clients = update_where (client_named client_id) (with_redirects uris pkg) s.clients;
    }))
