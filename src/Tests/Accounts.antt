-- ===== src/Tests/Accounts.antt =====
-- Sign-in, passwords, suspension and verification.
use kde_auth.Prelude.{◌≡◌, ne_of_test, refl, String, [], ◌∷◌, some, true, arith, find}
use kde_auth.Domain.Errors.{ok, err, forbidden}
use kde_auth.Domain.Email.{parse_email}
use kde_auth.Domain.Pkce.{new_plain_password}
use kde_auth.Domain.User.{
  User, suspended, can_authorize, can_authenticate, is_email_verified, is_admin,
}
use kde_auth.Exec.{◌>>=◌}
use kde_auth.State.{State, ResetRow}
use kde_auth.Store.Sessions
use kde_auth.Store.Users
use kde_auth.Store.Users.{user_by_email, has_id}
use kde_auth.Store.Tokens.Resets.{reset_hash, usable_reset, consume_password_reset_token}
use kde_auth.Store.Tokens.Refreshes.{revoke_all_refresh_tokens_for_user}
use kde_auth.Store.Tokens.Verifications.{consume_email_verification_token}
use kde_auth.UseCase.Captcha.{verify_captcha}
use kde_auth.UseCase.Login.{
  LoginInput, LoginResult, authenticate, open_session, login, resolve_session,
}
use kde_auth.UseCase.Login.SignIn.{login-resolve_session}
use kde_auth.UseCase.Passwords.{
  ResetInput, ChangeInput, set_password, reset_password, check_change, change_password,
}
use kde_auth.UseCase.Passwords.Revocation.{reset_password-SignedOut, change_password-SignedOut}
use kde_auth.UseCase.AdminUsers.Suspension.{set_status-SignedOut}
use kde_auth.UseCase.SignedOut.{SignedOut}
use kde_auth.UseCase.AdminUsers.{revoke_access, set_status}
use kde_auth.UseCase.Verify.{apply_verification, verify_email}
use kde_auth.UseCase.Verify.Activation.{verify_email-active}
use kde_auth.Tests.Data.{deployment, moment, world, ada, root, verification_of_ada}

abbrev login_input : LoginInput
login_input = record {
  email = "ada@example.org";
  password = "correct horse";
  captcha_token = "";
  remote_ip = "";
}

abbrev login_result : LoginResult
login_result = record { session_token = "r1"; expires_at = 700; user = ada }

abbrev signed_in : State
signed_in = (login deployment 600 (moment 100 "r1") login_input world).1

login_run : login deployment 600 (moment 100 "r1") login_input world ≡ (ok login_result, signed_in)
unfolding login authenticate open_session verify_captcha parse_email can_authenticate
    is_email_verified Users.by_email Sessions.create ◌>>=◌
login_run = refl

login-resolve_session_example :
    (email : String) × (parse_email deployment.library "ada@example.org" ≡ ok email)
    × (user_by_email deployment (moment 100 "r1") email world ≡ some ada)
    × (deployment.verify_password "hash:correct horse" "correct horse" ≡ true)
    × (can_authorize ada ≡ ok tt)
    × (resolve_session deployment (moment 200 "r2") "r1" signed_in ≡ (ok ada, signed_in))
login-resolve_session_example =
    login-resolve_session deployment 600 (moment 100 "r1") (moment 200 "r2") login_input world
      signed_in login_result login_run (ne_of_test "r1" "" refl) (omega arith) refl refl

abbrev reset_input : ResetInput
reset_input = record {
  token = "reset";
  password = "a longer pass";
  password_confirm = "a longer pass";
}

abbrev was_reset : State
was_reset = (reset_password deployment (moment 100 "r1") reset_input world).1

reset_run : reset_password deployment (moment 100 "r1") reset_input world ≡ (ok tt, was_reset)
unfolding reset_password new_plain_password consume_password_reset_token set_password
    Users.update_password Sessions.revoke_all_for_user revoke_all_refresh_tokens_for_user ◌>>=◌
reset_run = refl

reset_password-SignedOut_example :
    (row : ResetRow) × (find (reset_hash "sha:reset") world.resets ≡ some row)
    × (usable_reset 100 row ≡ true)
    × SignedOut row.user_id was_reset
reset_password-SignedOut_example =
    reset_password-SignedOut deployment (moment 100 "r1") reset_input world was_reset reset_run

abbrev change_input : ChangeInput
change_input = record {
  user_id = "u1";
  current_password = "correct horse";
  new_password = "a longer pass";
  new_password_confirm = "a longer pass";
}

abbrev was_changed : State
was_changed = (change_password deployment (moment 100 "r1") change_input world).1

change_run : change_password deployment (moment 100 "r1") change_input world ≡ (ok tt, was_changed)
unfolding change_password check_change new_plain_password can_authorize set_password Users.by_id
    Users.update_password Sessions.revoke_all_for_user revoke_all_refresh_tokens_for_user ◌>>=◌
change_run = refl

change_password-SignedOut_example :
    (user : User) × (find (has_id "u1") world.users ≡ some user)
    × (can_authorize user ≡ ok tt)
    × (deployment.verify_password user.password_hash "correct horse" ≡ true)
    × SignedOut "u1" was_changed
change_password-SignedOut_example =
    change_password-SignedOut deployment (moment 100 "r1") change_input world was_changed change_run

abbrev was_suspended : State
was_suspended = (set_status deployment (moment 100 "r1") root "u1" suspended world).1

suspend_run :
    set_status deployment (moment 100 "r1") root "u1" suspended world ≡ (ok tt, was_suspended)
unfolding set_status is_admin revoke_access Users.set_status Sessions.revoke_all_for_user
    revoke_all_refresh_tokens_for_user ◌>>=◌
suspend_run = refl

set_status-SignedOut_example :
    (is_admin root ≡ true)
    × SignedOut "u1" was_suspended
    × (user : User) × (find (has_id "u1") was_suspended.users ≡ some user)
    × (can_authenticate user ≡ err forbidden)
set_status-SignedOut_example =
    set_status-SignedOut deployment (moment 100 "r1") root "u1" world was_suspended suspend_run

-- The account was suspended, and its verification token is still open.
abbrev suspended_world : State
suspended_world = record world { users = record ada { status = suspended } ∷ [] }

abbrev was_verified : State
was_verified = (verify_email deployment (moment 100 "r1") "verify" suspended_world).1

verify_run :
    verify_email deployment (moment 100 "r1") "verify" suspended_world ≡ (ok tt, was_verified)
unfolding verify_email apply_verification consume_email_verification_token Users.mark_email_verified
    ◌>>=◌
verify_run = refl

abbrev revived : User
revived = Users.activated deployment (moment 100 "r1") (record ada { status = suspended })

verify_email-active_example :
    (find (has_id "u1") was_verified.users ≡ some revived) × (can_authorize revived ≡ ok tt)
verify_email-active_example =
    verify_email-active deployment (moment 100 "r1") "verify" verification_of_ada
      (record ada { status = suspended }) suspended_world was_verified refl refl refl verify_run
