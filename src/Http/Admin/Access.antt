-- ===== src/Http/Admin/Access.antt =====
-- Who gets past RequireAdmin.
use kde_auth.Prelude.{◌≡◌, ◌⊎◌, refl, ◌∙◌, true, false, some, find, inl, inr, Bool-cases}
use kde_auth.Domain.Errors.{Result, ok, err, Result-cases}
use kde_auth.Domain.User.{User, is_admin, can_authorize}
use kde_auth.Port.{Moment}
use kde_auth.State.{State, SessionRow}
use kde_auth.Store.Users.{has_id}
use kde_auth.UseCase.Login.{resolve_session}
use kde_auth.UseCase.Login.Resolution.{resolve_session-Reads, resolve_session_ok, live_row}
use kde_auth.Http.{HttpRequest, Site}
use kde_auth.Http.Admin.{AdminHandler, require_admin, admitted}
use kde_auth.Http.Replies.{session_token, http_not_found}

module _ (site : Site) (at : Moment) where
  -- The cookie names a session that is neither revoked nor expired, of the given user.
  abbrev pub HasSession : HttpRequest → State → User → Type 0
  HasSession r s user =
      (row : SessionRow) × (live_row site.deployment at (session_token r) s ≡ some row)
      × (find (has_id row.session.user_id) s.users ≡ some user)
      × (can_authorize user ≡ ok tt)

  require_admin_run :
      (next : AdminHandler) (r : HttpRequest) (s : State) (result : Result User)
      → (resolve_session site.deployment at (session_token r) s).0 ≡ result
      → require_admin site at next r s ≡ admitted site at next r result s
  unfolding require_admin
  require_admin_run next r s result h = λ i.
      admitted site at next r (h i)
        ((resolve_session-Reads site.deployment at (session_token r)).same s i)

  admitted_admin :
      (next : AdminHandler) (r : HttpRequest) (s : State) (user : User)
      → is_admin user ≡ true
      → admitted site at next r (ok user) s ≡ next (some user) r s
  admitted_admin next r s user h = rw h refl

  admitted_other :
      (next : AdminHandler) (r : HttpRequest) (s : State) (user : User)
      → is_admin user ≡ false
      → admitted site at next r (ok user) s ≡ (http_not_found, s)
  admitted_other next r s user h = rw h refl

  -- Whatever page or action of the administration a request asks for, it either gets the answer of
  -- a missing page and changes nothing, or its cookie names a live session of an account that may
  -- authorize and is an administrator, and the page or action runs for that account.
  pub require_admin-HasSession :
      (next : AdminHandler) (r : HttpRequest) (s : State)
      → (require_admin site at next r s ≡ (http_not_found, s))
        ⊎ ((user : User) × (is_admin user ≡ true)
            × HasSession r s user
            × (require_admin site at next r s ≡ next (some user) r s))
  require_admin-HasSession next r s =
      let token = session_token r in
      elim (Result-cases (resolve_session site.deployment at token s).0) [
        | inr (e, failed) ↦ inl (require_admin_run next r s (err e) failed)
        | inl (user, resolved) ↦
            let run = require_admin_run next r s (ok user) resolved in
            elim (Bool-cases (is_admin user)) [
              | inr other ↦ inl (run ∙ admitted_other next r s user other)
              | inl admin ↦ inr (
                user,
                admin,
                resolve_session_ok site.deployment at token s user resolved,
                run ∙ admitted_admin next r s user admin,
              )
            ]
      ]
