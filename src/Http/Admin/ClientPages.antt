-- ===== src/Http/Admin/ClientPages.antt =====
-- internal/adapter/http/handler/admin.go: the pages and actions on OAuth clients
use kde_auth.Prelude.{String, some, List, [], not, ◌==◌, if◌then◌else◌}
use kde_auth.Domain.Errors.{Error, Result, ok, err}
use kde_auth.Domain.Client.{OauthClient}
use kde_auth.Domain.User.{User}
use kde_auth.Port.{Moment}
use kde_auth.UseCase.AdminClients.{
  CreateClientInput, CreateClientResult, create_client, set_access_mode, update_redirect_uris,
}
use kde_auth.Store.Clients
use kde_auth.Http.{HttpRequest, Site, AdminPageData, empty_admin_page}
use kde_auth.Http.Handling.{Handler, respond, call}
use kde_auth.Http.Registration.{with_form}
use kde_auth.Http.Admin.{AdminHandler, with_actor, not_permitted, server_error}
use kde_auth.Http.Replies.{user_facing_message, http_redirect, admin_html}

module _ (at : Moment) where
  abbrev listed : Result (List OauthClient) → List OauthClient
  listed (ok clients) = clients
  listed (err _) = []

  -- `clients, _ := h.clients.List(...)`, and the page that is made of them.
  abbrev pub with_clients : (List OauthClient → Handler) → Handler
  with_clients next s = let (result, s') = Clients.list at s in next (listed result) s'

abbrev pub clients_page : User → List OauthClient → AdminPageData
clients_page actor clients = record empty_admin_page {
  title = "OAuth clients";
  actor = some actor;
  clients = clients;
}

abbrev show : AdminPageData → Handler
show data_of_page = respond (admin_html "admin_clients.html" data_of_page)

abbrev created_note : String → String
created_note secret =
    if not (secret == "")
    then "Client created. Copy the secret now — it will not be shown again."
    else "Public client created (PKCE required; no client_secret)."

module _ (site : Site) (at : Moment) where
  unfoldable pub admin_clients : AdminHandler
  admin_clients actor r =
      call (Clients.list at)
        (λ clients.
          show
            (record empty_admin_page { title = "OAuth clients"; actor = actor; clients = clients }))
        server_error

  abbrev pub client_input : HttpRequest → CreateClientInput
  client_input r = record {
    client_id = site.trim_space (r.form "client_id");
    name = site.trim_space (r.form "name");
    redirect_uri = site.trim_space (r.form "redirect_uri");
    android_package = r.form "android_package";
    access_mode = site.trim_space (r.form "access_mode");
    token_endpoint_auth_method = site.trim_space (r.form "token_endpoint_auth_method");
  }

  abbrev created_page : User → CreateClientResult → List OauthClient → AdminPageData
  created_page actor result clients = record (clients_page actor clients) {
    new_client_id = result.client.client_id;
    new_secret = result.client_secret;
    success = created_note result.client_secret;
  }

  abbrev create_for : User → HttpRequest → List OauthClient → Handler
  create_for actor r clients =
      call (create_client site.deployment at actor (client_input r))
        (λ result. with_clients at (λ after. show (created_page actor result after)))
        (λ e. show (record (clients_page actor clients) { error = user_facing_message e }))

  unfoldable pub admin_create_client : AdminHandler
  admin_create_client actor r =
      with_actor not_permitted (λ user. with_form r (with_clients at (create_for user r))) actor

  abbrev back_to_clients : Unit {0} → Handler
  back_to_clients _ = respond (http_redirect "/admin/clients" 303)

  abbrev mode_failed : User → Error → Handler
  mode_failed user e =
      with_clients at
        (λ clients. show (record (clients_page user clients) { error = user_facing_message e }))

  unfoldable pub admin_set_access_mode : AdminHandler
  admin_set_access_mode actor r =
      with_actor not_permitted
        (λ user. with_form r (
          call (set_access_mode site.deployment at user (r.form "client_id") (r.form "access_mode"))
            back_to_clients (mode_failed user)))
        actor

  abbrev redirects_failed : User → HttpRequest → Error → Handler
  redirects_failed user r e = with_clients at (λ clients. show (record (clients_page user clients) {
    error = user_facing_message e;
    edit_client_id = site.trim_space (r.form "client_id");
    edit_redirect_uris = r.form "redirect_uris";
    edit_android_package = r.form "android_package";
  }))

  unfoldable pub admin_update_redirect_uris : AdminHandler
  admin_update_redirect_uris actor r =
      with_actor not_permitted
        (λ user. with_form r (
          call
            (update_redirect_uris site.deployment at user (site.trim_space (r.form "client_id"))
              (r.form "redirect_uris") (r.form "android_package"))
            back_to_clients (redirects_failed user r)))
        actor
