-- ===== src/UseCase/AdminUsers/Listing.antt =====
-- internal/usecase/admin.go: AdminUserRow, AdminUsersResult, Dashboard and List
use kde_auth.Prelude.{ℕ, String, List, map, leb, if◌then◌else◌}
use kde_auth.Domain.User.{User}
use kde_auth.Domain.UserStats.{UserStats, UserActivityStats, UserListFilter}
use kde_auth.Port.{Deployment, Moment}
use kde_auth.Exec.{Exec, pure, ◌>>=◌}
use kde_auth.Store.UserAdmin

pub record AdminUserRow : Type 0 where
  pub user : User
  pub client_ids : List String
  pub activity : UserActivityStats

pub record AdminUsersResult : Type 0 where
  pub users : List AdminUserRow
  pub total : ℕ
  pub filter : UserListFilter
  pub stats : UserStats

module _ (dep : Deployment) (at : Moment) where
  unfoldable pub dashboard : Exec UserStats
  dashboard = UserAdmin.stats dep at at.now

  abbrev pub defaulted : UserListFilter → UserListFilter
  defaulted filter = if leb filter.limit 0 then record filter { limit = 50 } else filter

  abbrev row_of : (String → List String) → (String → UserActivityStats) → User → AdminUserRow
  row_of apps activity u = record { user = u; client_ids = apps u.id; activity = activity u.id }

  unfoldable pub list_users : UserListFilter → Exec AdminUsersResult
  list_users raw_filter = do
    let filter = defaulted raw_filter
    users ← UserAdmin.list dep at filter
    total ← UserAdmin.count dep at filter
    let ids = map (λ u. u.id) users
    apps ← UserAdmin.list_client_ids_for_users dep at ids
    activity ← UserAdmin.list_activity_stats_for_users dep at ids at.now
    stats ← UserAdmin.stats dep at at.now
    pure (record {
      users = map (row_of apps activity) users;
      total = total;
      filter = filter;
      stats = stats;
    })
