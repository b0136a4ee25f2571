-- ===== src/Http/Registration.antt =====
-- internal/adapter/http/handler/register.go, password_reset.go and VerifyEmail of verify_logout.go
use kde_auth.Prelude.{String, Bool, true, false, List, [], ◌∷◌, not, ◌==◌, if◌then◌else◌}
use kde_auth.Domain.Errors.{Error, invalid_token, registration_closed, invite_only_registration}
use kde_auth.Port.{Moment}
use kde_auth.UseCase.Register.{
  TicketResult, RegisterInput, issue_register_ticket, peek_ticket, register_user,
}
use kde_auth.UseCase.Verify.{verify_email}
use kde_auth.UseCase.Passwords.{
  RequestResetInput, ResetInput, request_password_reset, reset_password,
}
use kde_auth.Http.{HttpRequest, Method, get, post, Site, Json, text, number, PageData, Response}
use kde_auth.Http.Address.{client_ip}
use kde_auth.Http.Handling.{Handler, respond, call}
use kde_auth.Http.Tokens.{is_post}
use kde_auth.Http.Replies.{
  write_json, write_error, user_facing_message, http_not_found, html, method_not_allowed,
  bad_request, empty_page,
}

abbrev pub ticket_body : TicketResult → List (String × Json)
ticket_body result =
    ("ticket", text result.ticket)
    ∷ ("expires_in", number result.expires_in)
    ∷ ("register_url", text result.register_url)
    ∷ []

-- A parsed form goes on; any other request is refused.
abbrev pub with_form : HttpRequest → Handler → Handler
with_form r next s = let answer = next s in if not r.form_parses then (bad_request, s) else answer

abbrev pub by_method : (on_get on_post : Handler) → Method → Handler
by_method on_get on_post get s = on_get s
by_method on_get on_post post s = on_post s
by_method on_get on_post _ s = (method_not_allowed, s)

abbrev pub show : String → PageData → Handler
show template data_of_page = respond (html template data_of_page)

abbrev pub verify_sent : (title email : String) → Response
verify_sent title email =
    html "verify_sent.html" (record empty_page { title = title; email = email })

module _ (site : Site) (at : Moment) where
  unfoldable pub serve_ticket : HttpRequest → Handler
  serve_ticket r s =
      let answer =
        with_form r
          (call
            (issue_register_ticket site.deployment at (r.form "client_id") (r.form "client_secret"))
            (λ result. respond (write_json 200 (ticket_body result)))
            (λ e. respond (write_error e)))
          s in
      if not (is_post r.method) then (method_not_allowed, s) else answer

  abbrev pub register_page : (email ticket error : String) → PageData
  register_page email ticket error = record empty_page {
    title = "Register";
    email = email;
    ticket = ticket;
    error = error;
    turnstile_site_key = site.turnstile_key;
  }

  unfoldable pub register_get : HttpRequest → Handler
  register_get r =
      call (peek_ticket site.deployment at (r.query "ticket"))
        (λ _. show "register.html" (register_page "" (r.query "ticket") ""))
        (λ _. respond http_not_found)

  abbrev pub register_input : HttpRequest → RegisterInput
  register_input r = record {
    email = r.form "email";
    password = r.form "password";
    captcha_token = r.form "cf-turnstile-response";
    remote_ip = client_ip site r;
    ticket = r.form "ticket";
  }

  -- The failures that are shown as a missing page.
  abbrev pub is_hidden : Error → Bool
  is_hidden invalid_token = true
  is_hidden registration_closed = true
  is_hidden invite_only_registration = true
  is_hidden _ = false

  abbrev register_failed : HttpRequest → Error → Response
  register_failed r e =
      if is_hidden e
      then http_not_found
      else html "register.html"
          (register_page (r.form "email") (r.form "ticket") (user_facing_message e))

  abbrev register_checked : HttpRequest → Handler
  register_checked r s =
      let answer =
        call (register_user site.deployment at (register_input r))
          (λ _. respond (verify_sent "Verify email" (r.form "email")))
          (λ e. respond (register_failed r e)) s in
      if not (r.form "password" == r.form "password_confirm")
      then (
        html "register.html"
            (register_page (r.form "email") (r.form "ticket") "Passwords do not match."),
        s,
      )
      else answer

  unfoldable pub register_post : HttpRequest → Handler
  register_post r = with_form r (
      call (peek_ticket site.deployment at (r.form "ticket")) (λ _. register_checked r)
        (λ _. respond http_not_found))

  unfoldable pub serve_register : HttpRequest → Handler
  serve_register r = by_method (register_get r) (register_post r) r.method

  unfoldable pub serve_verify_email : HttpRequest → Handler
  serve_verify_email r =
      call (verify_email site.deployment at (r.query "token"))
        (λ _. show "verify_result.html" (record empty_page {
          title = "Email verified";
          success = "Your email address has been confirmed.";
        }))
        (λ e.
          show "verify_result.html"
            (record empty_page { title = "Verification failed"; error = user_facing_message e }))

  abbrev forgot_page : (email error : String) → PageData
  forgot_page email error = record empty_page {
    title = "Forgot password";
    email = email;
    error = error;
    turnstile_site_key = site.turnstile_key;
  }

  abbrev pub reset_request : HttpRequest → RequestResetInput
  reset_request r = record {
    email = r.form "email";
    captcha_token = r.form "cf-turnstile-response";
    remote_ip = client_ip site r;
  }

  unfoldable pub forgot_post : HttpRequest → Handler
  forgot_post r = with_form r (
      call (request_password_reset site.deployment at (reset_request r))
        (λ _.
          show "forgot_password_sent.html"
            (record empty_page { title = "Check your email"; email = r.form "email" }))
        (λ e. show "forgot_password.html" (forgot_page (r.form "email") (user_facing_message e))))

  unfoldable pub serve_forgot : HttpRequest → Handler
  serve_forgot r =
      by_method (show "forgot_password.html" (forgot_page "" "")) (forgot_post r) r.method

  abbrev first_of : String → String → String
  first_of a b = if a == "" then b else a

  abbrev reset_page : (token error : String) → PageData
  reset_page token error = record empty_page {
    title = "Reset password";
    token = token;
    error = error;
  }

  abbrev pub reset_input : HttpRequest → ResetInput
  reset_input r = record {
    token = first_of (r.form "token") (r.query "token");
    password = r.form "password";
    password_confirm = r.form "password_confirm";
  }

  unfoldable pub reset_post : HttpRequest → Handler
  reset_post r = with_form r (
      call (reset_password site.deployment at (reset_input r))
        (λ _. show "reset_password_done.html" (record empty_page {
          title = "Password updated";
          success = "Your password has been changed. You can sign in now.";
        }))
        (λ e.
          show "reset_password.html" (reset_page (reset_input r).token (user_facing_message e))))

  unfoldable pub reset_get : HttpRequest → Handler
  reset_get r =
      let token = first_of (r.query "token") (r.form "token") in
      show "reset_password.html"
        (reset_page token (if token == "" then "Missing reset token." else ""))

  unfoldable pub serve_reset : HttpRequest → Handler
  serve_reset r = by_method (reset_get r) (reset_post r) r.method
