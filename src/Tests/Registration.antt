-- ===== src/Tests/Registration.antt =====
-- A registration, and requests for an address that cannot be reset.
use kde_auth.Prelude.{◌≡◌, refl, inr, inl}
use kde_auth.Domain.Errors.{ok}
use kde_auth.Domain.Email.{parse_email}
use kde_auth.State.{State}
use kde_auth.Store.Accesses
use kde_auth.Store.Clients
use kde_auth.Store.Tickets
use kde_auth.Store.Users
use kde_auth.UseCase.Passwords.{RequestResetInput, request_password_reset}
use kde_auth.UseCase.Passwords.Silence.{request_password_reset-unchanged}
use kde_auth.UseCase.Register.{RegisterInput, register_user}
use kde_auth.Tests.Data.{deployment, moment, world}

abbrev registration_input : RegisterInput
registration_input = record {
  email = "bob@example.org";
  password = "a longer pass";
  captcha_token = "";
  remote_ip = "";
  ticket = "ticket";
}

abbrev registered : State
registered = (register_user deployment (moment 100 "r1") registration_input world).1

abbrev unknown_address : RequestResetInput
unknown_address = record { email = "eve@example.org"; captcha_token = ""; remote_ip = "" }

unknown_parsed : parse_email deployment.library "eve@example.org" ≡ ok "eve@example.org"
unfolding parse_email
unknown_parsed = refl

request_password_reset-unchanged_example :
    request_password_reset deployment (moment 100 "r1") unknown_address world ≡ (ok tt, world)
request_password_reset-unchanged_example =
    request_password_reset-unchanged deployment (moment 100 "r1") unknown_address world refl refl
      (inr ("eve@example.org", unknown_parsed, inl refl))
