-- ===== src/Store/UserAdmin.antt =====
-- internal/adapter/postgres/user_admin_repo.go: the methods that read
pub mod Filter
pub mod Paging
use kde_auth.Prelude.{
  ℕ, ◌+◌, ◌-◌, ◌*◌, String, Bool, true, false, Option, none, some, is_some, List, [], ◌∷◌, ◌++◌,
  map, ◌&&◌, ◌||◌, not, ◌==◌, ltb, leb, length, find, exists, count_where, select_where, order_by,
  take, drop, if◌then◌else◌,
}
use kde_auth.Domain.Errors.{ok}
use kde_auth.Domain.User.{User, UserAppAccess, status_text}
use kde_auth.Domain.Client.{OauthClient}
use kde_auth.Domain.UserStats.{UserStats, UserActivityStats, ClientUserCount, UserListFilter}
use kde_auth.Port.{
  Moment, Deployment, admin_list, admin_count, admin_stats, admin_apps, admin_activity,
}
use kde_auth.State.{State, SessionRow, RefreshRow}
use kde_auth.Exec.{Exec, pure, gets, transaction}
use kde_auth.Store.Sessions.{live_session}
use kde_auth.Store.UserAdmin.Filter.{Arg, amount, arg_at, amount_of, user_filter_sql, selected}

abbrev pub newer : User → User → Bool
newer a b = leb b.created_at a.created_at

abbrev pub clamped_limit : ℕ → ℕ
clamped_limit limit = if leb limit 0 || ltb 200 limit then 50 else limit

module _ (dep : Deployment) where
  -- The arguments of the statement of List: those of the filter, the limit and the offset.
  abbrev pub list_args : UserListFilter → List Arg
  list_args filter =
      (user_filter_sql dep filter).args
      ++ amount (clamped_limit filter.limit) ∷ amount filter.offset ∷ []

  -- LIMIT $(len(args)-1) OFFSET $(len(args))
  unfoldable pub page_of : UserListFilter → State → List User
  page_of filter s =
      let args = list_args filter in
      let limit = amount_of (arg_at (length args - 1) args) in
      let offset = amount_of (arg_at (length args) args) in
      take limit (drop offset (order_by newer (select_where (selected dep filter args s) s.users)))

  -- users.id is the primary key, so the DISTINCT of the count counts users.
  unfoldable pub count_of : UserListFilter → State → ℕ
  count_of filter s = count_where (selected dep filter (user_filter_sql dep filter).args s) s.users

-- A text that is not in the list yet.
abbrev pub add_new : String → List String → List String
add_new id ids = if exists (λ x. x == id) ids then ids else id ∷ ids

abbrev pub distinct : List String → List String
distinct [] = []
distinct (id ∷ ids) = add_new id (distinct ids)

abbrev has_status : String → User → Bool
has_status status u = status_text u.status == status

abbrev pub created_within : ℕ → ℕ → User → Bool
created_within now span u = leb now (u.created_at + span)

abbrev pub days : ℕ → ℕ
days n = n * 24 * 3600

abbrev name_of : String → Option OauthClient → String
name_of client_id none = client_id
name_of client_id (some client) = client.name

abbrev later_of : Option ℕ → Option ℕ → Option ℕ
later_of none b = b
later_of a none = a
later_of (some a) (some b) = if leb a b then some b else some a

-- MAX(s.created_at)
abbrev pub last_created : List SessionRow → Option ℕ
last_created [] = none
last_created (r ∷ rows) = later_of (some r.created_at) (last_created rows)

abbrev live_refresh : ℕ → RefreshRow → Bool
live_refresh now r = not (is_some r.revoked_at) && ltb now r.expires_at

-- The row of one user in the statement of ListActivityStatsForUsers.
abbrev pub activity_of : ℕ → State → String → UserActivityStats
activity_of now s id = record {
  has_active_session = exists (λ r. r.session.user_id == id && live_session now r) s.sessions;
  has_active_refresh_token = exists (λ r. r.user_id == id && live_refresh now r) s.refreshes;
  session_count = count_where (λ r. r.session.user_id == id) s.sessions;
  last_session_at = last_created (select_where (λ r. r.session.user_id == id) s.sessions);
}

abbrev pub no_activity : UserActivityStats
no_activity = record {
  has_active_session = false;
  has_active_refresh_token = false;
  session_count = 0;
  last_session_at = none;
}

abbrev pub among : List String → String → Bool
among ids id = exists (λ x. x == id) ids

-- `out[uid] = append(out[uid], cid)` for each row; the map is a function.
abbrev pub collect : List UserAppAccess → (String → List String) → String → List String
collect [] out = out
collect (a ∷ rows) out =
    collect rows (λ id. if id == a.user_id then out id ++ a.client_id ∷ [] else out id)

abbrev last_seen_first : UserAppAccess → UserAppAccess → Bool
last_seen_first a b = leb b.last_seen_at a.last_seen_at

module _ (dep : Deployment) (at : Moment) where
  unfoldable pub list : UserListFilter → Exec (List User)
  list filter = transaction at admin_list (gets (λ s. ok (page_of dep filter s)))

  unfoldable pub count : UserListFilter → Exec ℕ
  count filter = transaction at admin_count (gets (λ s. ok (count_of dep filter s)))

  -- The users of an application, each once.
  abbrev client_count : State → String → ClientUserCount
  client_count s client_id = record {
    client_id = client_id;
    name = name_of client_id (find (λ c. c.client_id == client_id) s.clients);
    count =
        length (
          distinct
            (map (λ a. a.user_id) (select_where (λ a. a.client_id == client_id) s.accesses)));
  }

  abbrev larger : ClientUserCount → ClientUserCount → Bool
  larger a b =
      ltb b.count a.count || (leb b.count a.count && dep.stands_before a.client_id b.client_id)

  abbrev pub stats_of : ℕ → State → UserStats
  stats_of now s = record {
    total = length s.users;
    pending = count_where (has_status "pending") s.users;
    active = count_where (has_status "active") s.users;
    suspended = count_where (has_status "suspended") s.users;
    verified = count_where (λ u. is_some u.email_verified_at) s.users;
    unverified = count_where (λ u. not (is_some u.email_verified_at)) s.users;
    created_last_7_days = count_where (created_within now (days 7)) s.users;
    created_last_30_days = count_where (created_within now (days 30)) s.users;
    by_client =
        order_by larger (map (client_count s) (distinct (map (λ a. a.client_id) s.accesses)));
  }

  unfoldable pub stats : ℕ → Exec UserStats
  stats now = transaction at admin_stats (gets (λ s. ok (stats_of now s)))

  unfoldable pub list_client_ids_for_users : List String → Exec (String → List String)
  list_client_ids_for_users [] = pure (λ _. [])
  list_client_ids_for_users (id ∷ ids) = transaction at admin_apps (
      gets (λ s. ok (
        collect
          (order_by last_seen_first (select_where (λ a. among (id ∷ ids) a.user_id) s.accesses))
          (λ _. []))))

  unfoldable pub list_activity_stats_for_users : List String → ℕ → Exec (String → UserActivityStats)
  list_activity_stats_for_users [] now = pure (λ _. no_activity)
  list_activity_stats_for_users (id ∷ ids) now =
      transaction at admin_activity
        (gets (λ s. ok (λ x. if among (id ∷ ids) x then activity_of now s x else no_activity)))
