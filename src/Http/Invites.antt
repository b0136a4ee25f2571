-- ===== src/Http/Invites.antt =====
-- internal/adapter/http/handler/invite.go
use kde_auth.Prelude.{String, ◌==◌, concat, false, if◌then◌else◌}
use kde_auth.Domain.Errors.{Error}
use kde_auth.Port.{Moment}
use kde_auth.UseCase.Invites.{RegisterViaInviteInput, accept_existing, register_via_invite}
use kde_auth.UseCase.Invites.Preview.{InvitePreview, preview_invite}
use kde_auth.Http.{HttpRequest, Site, InvitePageData}
use kde_auth.Http.Address.{client_ip}
use kde_auth.Http.Handling.{Handler, respond, call}
use kde_auth.Http.Registration.{with_form, by_method, verify_sent}
use kde_auth.Http.Replies.{user_facing_message, session_token, invite_html, bad_request}

abbrev empty_invite_page : InvitePageData
empty_invite_page = record {
  title = "";
  error = "";
  success = "";
  token = "";
  email = "";
  app_name = "";
  client_id = "";
  user_exists = false;
  logged_in = false;
  email_matches = false;
  already_has = false;
  login_next = "";
  turnstile_site_key = "";
}

module _ (site : Site) (at : Moment) where
  abbrev invite_url : String → String
  invite_url token = concat "/invite?token=" (site.query_escape token)

  -- What a page shows of the invite.
  abbrev pub with_preview : InvitePreview → InvitePageData → InvitePageData
  with_preview preview data_of_page = record data_of_page {
    email = preview.invite.email;
    app_name = preview.client.name;
    client_id = preview.client.client_id;
    user_exists = preview.user_exists;
    logged_in = preview.logged_in;
    email_matches = preview.email_matches;
    already_has = preview.already_has;
  }

  abbrev form_page : (token error : String) → InvitePageData
  form_page token error = record empty_invite_page {
    title = "Invite";
    error = error;
    token = token;
    login_next = site.query_escape (invite_url token);
    turnstile_site_key = site.turnstile_key;
  }

  unfoldable pub invite_get : HttpRequest → Handler
  invite_get r =
      let token = r.query "token" in
      call (preview_invite site.deployment at token (session_token r))
        (λ preview. respond (invite_html "invite.html" (with_preview preview (form_page token ""))))
        (λ e. respond (
          invite_html "invite.html" (record empty_invite_page {
            title = "Invite";
            error = user_facing_message e;
            token = token;
          })))

  unfoldable pub render_preview_error : HttpRequest → String → Error → Handler
  render_preview_error r token e =
      let data_of_page = form_page token (user_facing_message e) in
      call (preview_invite site.deployment at token (session_token r))
        (λ preview. respond (invite_html "invite.html" (with_preview preview data_of_page)))
        (λ _. respond (invite_html "invite.html" data_of_page))

  abbrev pub register_input : HttpRequest → RegisterViaInviteInput
  register_input r = record {
    token = r.form "token";
    password = r.form "password";
    captcha_token = r.form "cf-turnstile-response";
    remote_ip = client_ip site r;
  }

  unfoldable pub post_accept : HttpRequest → Handler
  post_accept r =
      call (accept_existing site.deployment at (r.form "token") (session_token r))
        (λ _. respond (
          invite_html "invite_done.html" (record empty_invite_page {
            title = "Invite accepted";
            success = "Access granted. You can sign in to the app.";
          })))
        (render_preview_error r (r.form "token"))

  unfoldable pub post_register : HttpRequest → Handler
  post_register r =
      call (register_via_invite site.deployment at (register_input r))
        (λ _. respond (verify_sent "Check your email" "")) (render_preview_error r (r.form "token"))

  abbrev act : HttpRequest → String → Handler
  act r action =
      if action == "accept"
      then post_accept r
      else if action == "register"
      then post_register r
      else respond bad_request

  unfoldable pub serve_invite : HttpRequest → Handler
  serve_invite r = by_method (invite_get r) (with_form r (act r (r.form "action"))) r.method
