-- ===== src/Http/Replies/Statuses.antt =====
-- The status of an error's answer.
use kde_auth.Prelude.{◌≤◌, ◌≡◌, refl, arith}
use kde_auth.Domain.Errors.{
  Error, not_found, invalid_credentials, email_taken, registration_closed, invite_only_registration,
  too_many_attempts, invalid_redirect_uri, invalid_client, invalid_grant, invalid_scope,
  unauthorized, forbidden, no_app_access, invalid_token, captcha_failed, email_limit_reached,
  cannot_delete_last_email, internal, validation_error,
}
use kde_auth.Http.{kept}
use kde_auth.Http.Replies.{write_error, write_json}

-- The answer to an error has a status between 400 and 429, sends the client nowhere and leaves its
-- cookie alone.
pub write_error-status :
    (e : Error)
    → (400 ≤ (write_error e).status)
      × ((write_error e).status ≤ 429)
      × ((write_error e).location ≡ "")
      × ((write_error e).cookie ≡ kept)
unfolding write_error write_json
write_error-status not_found = (omega arith, omega arith, refl, refl)
write_error-status invalid_credentials = (omega arith, omega arith, refl, refl)
write_error-status email_taken = (omega arith, omega arith, refl, refl)
write_error-status registration_closed = (omega arith, omega arith, refl, refl)
write_error-status invite_only_registration = (omega arith, omega arith, refl, refl)
write_error-status too_many_attempts = (omega arith, omega arith, refl, refl)
write_error-status invalid_redirect_uri = (omega arith, omega arith, refl, refl)
write_error-status invalid_client = (omega arith, omega arith, refl, refl)
write_error-status invalid_grant = (omega arith, omega arith, refl, refl)
write_error-status invalid_scope = (omega arith, omega arith, refl, refl)
write_error-status unauthorized = (omega arith, omega arith, refl, refl)
write_error-status forbidden = (omega arith, omega arith, refl, refl)
write_error-status no_app_access = (omega arith, omega arith, refl, refl)
write_error-status invalid_token = (omega arith, omega arith, refl, refl)
write_error-status captcha_failed = (omega arith, omega arith, refl, refl)
write_error-status email_limit_reached = (omega arith, omega arith, refl, refl)
write_error-status cannot_delete_last_email = (omega arith, omega arith, refl, refl)
write_error-status internal = (omega arith, omega arith, refl, refl)
write_error-status (validation_error field message) = (omega arith, omega arith, refl, refl)
