-- ===== src/Tests/Listings.antt =====
-- The administration's lists at concrete inputs.
use kde_auth.Prelude.{
  ◌-◌, ◌≡◌, ◌==◌, ◌&&◌, ◌++◌, some, none, [], ◌∷◌, length, exists, if◌then◌else◌,
}
use kde_auth.Domain.UserStats.{UserListFilter}
use kde_auth.Store.UserAdmin.{page_of, count_of, clamped_limit}
use kde_auth.Store.UserAdmin.Filter.{amount, user_filter_sql, selected}
use kde_auth.Store.UserAdmin.Filter.Laws.{asked, selected-asked}
use kde_auth.Store.UserAdmin.Paging.{least, page_of-count_of}
use kde_auth.Tests.Data.{deployment, world, ada}

abbrev filter : UserListFilter
filter = record {
  query = "ada@example.org";
  status = "active";
  role = "";
  client_id = "";
  limit = 50;
  offset = 0;
}

selected-asked_example :
    selected deployment filter
      ((user_filter_sql deployment filter).args ++ amount 50 ∷ [])
      world
      ada
    ≡ (if filter.client_id == ""
        then asked deployment filter ada none
        else exists
            (λ a. a.user_id == ada.id && asked deployment filter ada (some a))
            world.accesses)
selected-asked_example = selected-asked deployment filter (amount 50 ∷ []) world ada

page_of-count_of_example :
    length (page_of deployment filter world)
    ≡ least (clamped_limit 50) (count_of deployment filter world - 0)
page_of-count_of_example = page_of-count_of deployment filter world
