-- ===== src/Http/Admin/InvitePages.antt =====
-- internal/adapter/http/handler/admin.go: the pages and actions on invites
use kde_auth.Prelude.{String, Option, some, List, [], not, ◌==◌, concat, if◌then◌else◌}
use kde_auth.Domain.Errors.{Result, ok, err}
use kde_auth.Domain.Client.{OauthClient}
use kde_auth.Domain.Invite.{Invite}
use kde_auth.Domain.User.{User}
use kde_auth.Port.{Moment}
use kde_auth.UseCase.Invites.{CreateInviteResult, create_invite, revoke_invite}
use kde_auth.UseCase.Invites.Preview.{list_invites}
use kde_auth.Store.Clients
use kde_auth.Http.{HttpRequest, Site, AdminPageData, empty_admin_page}
use kde_auth.Http.Handling.{Handler, respond, call}
use kde_auth.Http.Registration.{with_form}
use kde_auth.Http.Admin.{AdminHandler, with_actor, not_permitted, server_error, refused_by}
use kde_auth.Http.Admin.ClientPages.{with_clients}
use kde_auth.Http.Replies.{user_facing_message, http_redirect, admin_html}

abbrev show : AdminPageData → Handler
show data_of_page = respond (admin_html "admin_invites.html" data_of_page)

abbrev pub invites_page : Option User → List OauthClient → List Invite → String → AdminPageData
invites_page actor clients invites client_id = record empty_admin_page {
  title = "Invites";
  actor = actor;
  clients = clients;
  invites = invites;
  client = client_id;
}

abbrev pub revoked_location : String → String
revoked_location client =
    if not (client == "") then concat "/admin/invites?client=" client else "/admin/invites"

module _ (site : Site) (at : Moment) where
  -- `list_invites` answers with no invite for the empty client.
  unfoldable pub admin_invites : AdminHandler
  admin_invites actor r =
      let client_id = site.trim_space (r.query "client") in
      call (Clients.list at)
        (λ clients.
          call (list_invites site.deployment at client_id)
            (λ invites. show (invites_page actor clients invites client_id)) server_error)
        server_error

  abbrev listed : Result (List Invite) → List Invite
  listed (ok invites) = invites
  listed (err _) = []

  abbrev with_invites : String → (List Invite → Handler) → Handler
  with_invites client_id next s =
      let (result, s') = list_invites site.deployment at client_id s in next (listed result) s'

  abbrev created : AdminPageData → CreateInviteResult → String → Handler
  created data_of_page result client_id = with_invites client_id (λ invites.
      show (record data_of_page {
        success = "Invite created and emailed.";
        accept_url = result.accept_url;
        invites = invites;
      }))

  abbrev create_for : User → HttpRequest → List OauthClient → Handler
  create_for actor r clients =
      let client_id = site.trim_space (r.form "client_id") in
      let email = site.trim_space (r.form "email") in
      let base = λ (invites : List Invite). invites_page (some actor) clients invites client_id in
      call (create_invite site.deployment at actor client_id email)
        (λ result. with_invites client_id (λ invites. created (base invites) result client_id))
        (λ e.
          with_invites client_id
            (λ invites. show (record (base invites) { error = user_facing_message e })))

  unfoldable pub admin_create_invite : AdminHandler
  admin_create_invite actor r =
      with_actor not_permitted (λ user. with_form r (with_clients at (create_for user r))) actor

  unfoldable pub admin_revoke_invite : AdminHandler
  admin_revoke_invite actor r =
      with_actor not_permitted
        (λ user. with_form r (
          call (revoke_invite site.deployment at user (r.form "invite_id"))
            (λ _. respond (http_redirect (revoked_location (r.form "client")) 303)) refused_by))
        actor
