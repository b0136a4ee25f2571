-- ===== src/Http/Admin/Pages.antt =====
-- internal/adapter/http/handler/admin.go: the pages that list accounts
use kde_auth.Prelude.{ℕ, ◌+◌, ◌-◌, ◌*◌, Option, some, ltb, if◌then◌else◌}
use Prim.Native.Nat.{◌%◌, ◌^◌}
use kde_auth.Domain.User.{User}
use kde_auth.Domain.UserStats.{UserListFilter}
use kde_auth.Port.{Moment}
use kde_auth.UseCase.AdminUsers.Listing.{AdminUsersResult, dashboard, list_users}
use kde_auth.Http.{HttpRequest, Site, AdminPageData, empty_admin_page}
use kde_auth.Http.Handling.{respond, call}
use kde_auth.Http.Admin.{AdminHandler, server_error}
use kde_auth.Http.Replies.{admin_html}

abbrev pub page_size : ℕ
page_size = 50

-- An `int` of 64 bits, where a negative one is 0.
abbrev pub not_negative : ℕ → ℕ
not_negative n = let w = n % 2 ^ 64 in if ltb w (2 ^ 63) then w else 0

module _ (site : Site) (at : Moment) where
  unfoldable pub admin_dashboard : AdminHandler
  admin_dashboard actor r =
      call (dashboard site.deployment at)
        (λ stats. respond (
          admin_html "admin_dashboard.html"
            (record empty_admin_page { title = "Admin"; actor = actor; stats = some stats })))
        server_error

  -- strconv.Atoi, where a number below 1 is read as 1.
  abbrev pub page_of_query : HttpRequest → ℕ
  page_of_query r = if ltb (site.atoi (r.query "page")) 1 then 1 else site.atoi (r.query "page")

  abbrev pub users_filter : HttpRequest → UserListFilter
  users_filter r = record {
    query = site.trim_space (r.query "q");
    status = r.query "status";
    role = r.query "role";
    client_id = r.query "client";
    limit = page_size;
    offset = not_negative ((page_of_query r - 1) * page_size);
  }

  abbrev users_page : Option User → HttpRequest → AdminUsersResult → AdminPageData
  users_page actor r result =
      let filter = users_filter r in
      let number = page_of_query r in
      record empty_admin_page {
        title = "Users";
        actor = actor;
        result = some result;
        stats = some result.stats;
        query = filter.query;
        status = filter.status;
        role = filter.role;
        client = filter.client_id;
        page = number;
        prev_page = number - 1;
        next_page = number + 1;
      }

  unfoldable pub admin_users : AdminHandler
  admin_users actor r =
      call (list_users site.deployment at (users_filter r))
        (λ result. respond (admin_html "admin_users.html" (users_page actor r result))) server_error
