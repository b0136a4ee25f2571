-- ===== src/Service/Preserved/Accounts.antt =====
-- Registration, verification, passwords and the addresses of an account keep what the repository calls keep.
use kde_auth.Prelude.{String}
use kde_auth.Domain.Errors.{Result, ok, err}
use kde_auth.Domain.Client.{OauthClient}
use kde_auth.Domain.User.{User, can_authenticate}
use kde_auth.Domain.Token.{RegistrationTicket}
use kde_auth.Port.{Deployment, Moment}
use kde_auth.State.{State}
use kde_auth.Exec.Keeps.{Keeps, keeps_rules, Keeps-write, Keeps-draw}
use kde_auth.Service.Preserved.{Preserved}
use kde_auth.Store.Users
use kde_auth.Service.Preserved.Calls.{call_rules, user_by_email-Keeps}
use kde_auth.UseCase.Captcha.{verify_captcha}
use kde_auth.UseCase.Register.{
  RegisterInput, send_verification, send_verification_link, mint_ticket, peek_ticket, grant_access,
  issue_register_ticket, link_for_public_client, check_registration, complete_registration,
  register_user,
}
use kde_auth.UseCase.Verify.{apply_verification, verify_email}
use kde_auth.UseCase.Passwords.{
  RequestResetInput, ResetInput, ChangeInput, send_password_reset, send_reset_link,
  reset_for_address, reset_for_user, after_check, after_lookup, after_parse, request_password_reset,
  set_password, reset_password, check_change, change_password,
}
use kde_auth.UseCase.AccountEmails.{
  AddEmailInput, require_user, check_addition, add_email, cancel_email, delete_email,
}

module _ {P : State → Type 0} (dep : Deployment) (at : Moment) (k : Preserved dep at P) where
  send_verification-Keeps : (to url : String) → Keeps P (send_verification at to url)
  unfolding send_verification
  send_verification-Keeps to url = search (keeps_rules, Keeps-write, k.ignores.outbox)

  pub send_link-Keeps : (id email to : String) → Keeps P (send_verification_link dep at id email to)
  unfolding send_verification_link
  send_link-Keeps id email to =
      Keeps-draw _ _ λ raw drawn.
        search (keeps_rules, k.create_verification _ raw drawn, send_verification-Keeps)

  mint_ticket-Keeps : (client : OauthClient) → Keeps P (mint_ticket dep at client)
  unfolding mint_ticket
  mint_ticket-Keeps client =
      Keeps-draw _ _ λ raw drawn. search (keeps_rules, k.create_ticket _ raw drawn)

  pub issue_ticket-Keeps :
      (client_id secret : String) → Keeps P (issue_register_ticket dep at client_id secret)
  unfolding issue_register_ticket
  issue_ticket-Keeps client_id secret = search (call_rules, k.ignores, mint_ticket-Keeps) depth 14

  pub link-Keeps : (client_id : String) → Keeps P (link_for_public_client dep at client_id)
  unfolding link_for_public_client
  link-Keeps client_id = search (call_rules, k.ignores, mint_ticket-Keeps) depth 14

  peek-Keeps : (raw : String) → Keeps P (peek_ticket dep at raw)
  unfolding peek_ticket
  peek-Keeps raw = search (call_rules, k.ignores) depth 14

  pub grant-Keeps : (id client_id : String) → Keeps P (grant_access dep at id client_id)
  unfolding grant_access
  grant-Keeps id client_id = search (call_rules, k.ignores)

  check_registration-Keeps : (input : RegisterInput) → Keeps P (check_registration dep at input)
  unfolding check_registration verify_captcha
  check_registration-Keeps input = search (call_rules, k.ignores, peek-Keeps) depth 14

  complete-Keeps :
      (input : RegisterInput) (email hash : String) (ticket : RegistrationTicket)
      → Keeps P (complete_registration dep at input email hash ticket)
  unfolding complete_registration
  complete-Keeps input email hash ticket =
      search (keeps_rules, k.consume_ticket, k.create_user, grant-Keeps, send_link-Keeps) depth 14

  pub register-Keeps : (input : RegisterInput) → Keeps P (register_user dep at input)
  unfolding register_user
  register-Keeps input = search (keeps_rules, check_registration-Keeps, complete-Keeps)

  pub verify_email-Keeps : (raw : String) → Keeps P (verify_email dep at raw)
  unfolding verify_email apply_verification
  verify_email-Keeps raw =
      search (keeps_rules, k.consume_verification, k.mark_verified, k.mark_email_verified) depth 10

  send_reset-Keeps : (to url : String) → Keeps P (send_password_reset at to url)
  unfolding send_password_reset
  send_reset-Keeps to url = search (keeps_rules, Keeps-write, k.ignores.outbox)

  send_reset_link-Keeps : (u : User) (email : String) → Keeps P (send_reset_link dep at u email)
  unfolding send_reset_link
  send_reset_link-Keeps u email =
      Keeps-draw _ _ λ raw drawn. search (keeps_rules, k.create_reset _ raw drawn, send_reset-Keeps)

  set_password-Keeps : (id hash : String) → Keeps P (set_password dep at id hash)
  unfolding set_password
  set_password-Keeps id hash =
      search (call_rules, k.ignores, k.update_password, k.revoke_refreshes) depth 8

  pub reset_password-Keeps : (input : ResetInput) → Keeps P (reset_password dep at input)
  unfolding reset_password
  reset_password-Keeps input = search (keeps_rules, k.consume_reset, set_password-Keeps) depth 14

  pub change_password-Keeps : (input : ChangeInput) → Keeps P (change_password dep at input)
  unfolding change_password check_change
  change_password-Keeps input = search (call_rules, k.ignores, set_password-Keeps) depth 14

  require_user-Keeps : (id : String) → Keeps P (require_user dep at id)
  unfolding require_user
  require_user-Keeps id = search (call_rules, k.ignores) depth 8

  check_addition-Keeps : (input : AddEmailInput) → Keeps P (check_addition dep at input)
  unfolding check_addition verify_captcha
  check_addition-Keeps input = search (call_rules, k.ignores) depth 16

  pub add_email-Keeps : (input : AddEmailInput) → Keeps P (add_email dep at input)
  unfolding add_email
  add_email-Keeps input =
      search (keeps_rules, check_addition-Keeps, k.insert_pending, send_link-Keeps)

  pub cancel_email-Keeps : (id : String) → Keeps P (cancel_email dep at id)
  unfolding cancel_email
  cancel_email-Keeps id = search (keeps_rules, require_user-Keeps, k.delete_pending)

  pub delete_email-Keeps : (id email : String) → Keeps P (delete_email dep at id email)
  unfolding delete_email
  delete_email-Keeps id email = search (keeps_rules, require_user-Keeps, k.delete_verified) depth 8

  reset_for_user-Keeps : (email : String) (u : User) → Keeps P (reset_for_user dep at email u)
  reset_for_user-Keeps email u =
      elim (can_authenticate u) as (λ r. Keeps P (after_check dep at u email r)) [
        | ok _ ↦ send_reset_link-Keeps u email
        | err _ ↦ search keeps_rules
      ]

  after_lookup-Keeps : (email : String) (r : Result User) → Keeps P (after_lookup dep at email r)
  after_lookup-Keeps email (ok u) = reset_for_user-Keeps email u
  after_lookup-Keeps email (err e) = search keeps_rules

  reset_for_address-Keeps : (email : String) → Keeps P (reset_for_address dep at email)
  unfolding reset_for_address
  reset_for_address-Keeps email = record {
    at = λ s p.
        let (r, s') = Users.by_email dep at email s in
        (after_lookup-Keeps email r).at s' ((user_by_email-Keeps dep at k.ignores email).at s p);
  }

  parsed-Keeps : (r : Result String) → Keeps P (after_parse dep at r)
  parsed-Keeps (ok email) = reset_for_address-Keeps email
  parsed-Keeps (err _) = search keeps_rules

  pub request_reset-Keeps :
      (input : RequestResetInput) → Keeps P (request_password_reset dep at input)
  unfolding request_password_reset verify_captcha
  request_reset-Keeps input = search (keeps_rules, parsed-Keeps)
