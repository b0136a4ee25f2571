-- ===== src/Http/Replies.antt =====
-- internal/adapter/http/response/json.go, and the replies of net/http that the handlers use
pub mod Statuses
use kde_auth.Prelude.{ℕ, String, Bool, Option, none, some, List, [], ◌∷◌, if◌then◌else◌}
use kde_auth.Domain.Errors.{
  Error, not_found, invalid_credentials, email_taken, registration_closed, invite_only_registration,
  too_many_attempts, invalid_redirect_uri, invalid_client, invalid_grant, invalid_scope,
  unauthorized, forbidden, no_app_access, invalid_token, captcha_failed, email_limit_reached,
  cannot_delete_last_email, internal, validation_error,
}
use kde_auth.Http.{
  HttpRequest, Json, text, Cookie, kept, cleared, session, Body, no_body, json, plain, page,
  PageData, Response, InvitePageData, invite_page, AdminPageData, admin_page,
}

-- The texts of domain/errors.go. What an error outside the package says is not modelled.
abbrev pub error_text : Error → String
error_text not_found = "not found"
error_text invalid_credentials = "invalid credentials"
error_text email_taken = "email already registered"
error_text registration_closed = "registration is closed"
error_text invite_only_registration = "this application is invite-only"
error_text too_many_attempts = "too many attempts"
error_text invalid_redirect_uri = "invalid redirect uri"
error_text invalid_client = "invalid client"
error_text invalid_grant = "invalid grant"
error_text invalid_scope = "invalid scope"
error_text unauthorized = "unauthorized"
error_text forbidden = "forbidden"
error_text no_app_access = "no access to this application"
error_text invalid_token = "invalid token"
error_text captcha_failed = "captcha verification failed"
error_text email_limit_reached = "email limit reached"
error_text cannot_delete_last_email = "cannot delete last verified email"
error_text (validation_error field message) = message
error_text internal = ""

abbrev pub reply : ℕ → Body → Response
reply status body = record { status = status; location = ""; cookie = kept; body = body }

unfoldable pub write_json : ℕ → List (String × Json) → Response
write_json status fields = reply status (json fields)

abbrev pub oauth_error : String → String → List (String × Json)
oauth_error code description = ("error", text code) ∷ ("error_description", text description) ∷ []

abbrev error_only : Error → List (String × Json)
error_only e = ("error", text (error_text e)) ∷ []

unfoldable pub write_error : Error → Response
unfolding write_json
write_error invalid_credentials =
    write_json 401 (oauth_error "invalid_request" (error_text invalid_credentials))
write_error unauthorized = write_json 401 (oauth_error "invalid_request" (error_text unauthorized))
write_error invalid_token =
    write_json 401 (oauth_error "invalid_request" (error_text invalid_token))
write_error forbidden = write_json 403 (oauth_error "access_denied" (error_text forbidden))
write_error no_app_access = write_json 403 (oauth_error "access_denied" (error_text no_app_access))
write_error invalid_client =
    write_json 401 (oauth_error "invalid_client" (error_text invalid_client))
write_error invalid_grant = write_json 400 (oauth_error "invalid_grant" (error_text invalid_grant))
write_error email_taken = write_json 409 (error_only email_taken)
write_error email_limit_reached = write_json 409 (error_only email_limit_reached)
write_error cannot_delete_last_email = write_json 409 (error_only cannot_delete_last_email)
write_error registration_closed = write_json 403 (error_only registration_closed)
write_error invite_only_registration = write_json 403 (error_only invite_only_registration)
write_error too_many_attempts = write_json 429 (error_only too_many_attempts)
write_error (validation_error field message) =
    write_json 400 (("error", text message) ∷ ("field", text field) ∷ [])
write_error e = write_json 400 (error_only e)

unfoldable pub user_facing_message : Error → String
user_facing_message invalid_credentials = "Invalid email or password."
user_facing_message email_taken = "An account with this email already exists."
user_facing_message email_limit_reached = "You already have a secondary email."
user_facing_message cannot_delete_last_email = "You cannot delete your last verified email."
user_facing_message registration_closed = "Registration is currently closed."
user_facing_message invite_only_registration =
    "This application is invite-only. Use the invite link you received."
user_facing_message too_many_attempts = "Too many attempts. Try again later."
user_facing_message captcha_failed = "Captcha verification failed. Please try again."
user_facing_message invalid_token = "This link is invalid or has expired."
user_facing_message no_app_access = "You do not have access to this application."
user_facing_message forbidden = "Please verify your email before signing in."
user_facing_message (validation_error field message) = message
user_facing_message e = "Something went wrong. Please try again."

abbrev pub set_session_cookie : String → ℕ → Bool → Response → Response
set_session_cookie token expires_at secure r = record r { cookie = session token expires_at secure }

abbrev pub clear_session_cookie : Bool → Response → Response
clear_session_cookie secure r = record r { cookie = cleared secure }

abbrev pub cookie_value : Option String → String
cookie_value none = ""
cookie_value (some v) = v

abbrev pub session_token : HttpRequest → String
session_token r = cookie_value r.cookie

-- http.Error, http.NotFound, http.Redirect, Renderer.HTML
abbrev pub http_error : String → ℕ → Response
http_error message status = reply status (plain message)

abbrev pub http_not_found : Response
http_not_found = http_error "404 page not found" 404

abbrev pub http_redirect : String → ℕ → Response
http_redirect url status = record { status = status; location = url; cookie = kept; body = no_body }

abbrev pub html : String → PageData → Response
html template data_of_page = reply 200 (page template data_of_page)

abbrev pub admin_html : String → AdminPageData → Response
admin_html template data_of_page = reply 200 (admin_page template data_of_page)

abbrev pub invite_html : String → InvitePageData → Response
invite_html template data_of_page = reply 200 (invite_page template data_of_page)

abbrev pub method_not_allowed : Response
method_not_allowed = http_error "method not allowed" 405

abbrev pub bad_request : Response
bad_request = http_error "bad request" 400

abbrev pub empty_page : PageData
empty_page = record {
  title = "";
  error = "";
  success = "";
  email = "";
  next = "";
  token = "";
  ticket = "";
  register_url = "";
  turnstile_site_key = "";
}
