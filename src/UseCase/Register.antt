-- ===== src/UseCase/Register.antt =====
-- internal/usecase/register.go: registration tickets and RegisterUser
pub mod Checks
pub mod Accounts
use kde_auth.Prelude.{ℕ, ◌+◌, ◌*◌, String, Option, none, ◌&&◌, not, ◌==◌, concat, [], ◌∷◌, ◌++◌}
use kde_auth.Domain.Errors.{
  registration_closed, invite_only_registration, invalid_client, invalid_token, email_taken,
}
use kde_auth.Domain.Client.{OauthClient, is_public, is_invite_only}
use kde_auth.Domain.Email.{parse_email}
use kde_auth.Domain.Pkce.{new_plain_password}
use kde_auth.Domain.User.{User, pending}
use kde_auth.Domain.User
use kde_auth.Domain.Token.{RegistrationTicket}
use kde_auth.Port.{Deployment, Moment, mail_verification}
use kde_auth.State.{Mail}
use kde_auth.Exec.{
  Exec, attempt, pure, lift, guard, write, transaction, or_error, if_not_found, or_internal, ◌>>=◌,
  ◌>>◌,
}
use kde_auth.Store.Clients
use kde_auth.Store.Users
use kde_auth.Store.Tickets
use kde_auth.Store.Accesses
use kde_auth.Store.Tokens.Verifications.{create_email_verification_token}
use kde_auth.UseCase.Captcha.{verify_captcha}

abbrev pub email_verify_ttl : ℕ
email_verify_ttl = 24 * 3600

abbrev pub registration_ticket_ttl : ℕ
registration_ticket_ttl = 10 * 60

-- port.Mailer: a letter that the mailer takes stands at the end of the outbox.
unfoldable pub send_verification : Moment → String → String → Exec (Unit {0})
send_verification at to url =
    transaction at mail_verification
      (write (λ s. record s { outbox = s.outbox ++ Mail.verification to url ∷ [] }))

pub record TicketResult : Type 0 where
  pub ticket : String
  pub expires_in : ℕ
  pub register_url : String

pub record RegisterInput : Type 0 where
  pub email : String
  pub password : String
  pub captcha_token : String
  pub remote_ip : String
  pub ticket : String

module _ (dep : Deployment) (at : Moment) where
  abbrev pub new_ticket : OauthClient → RegistrationTicket
  new_ticket client = record {
    token = "";
    client_id = client.client_id;
    expires_at = at.now + registration_ticket_ttl;
    used_at = none;
  }

  unfoldable pub mint_ticket : OauthClient → Exec String
  mint_ticket client = do
    raw ← or_internal at.random
    Tickets.create at (new_ticket client) (dep.hash_token raw)
    pure raw

  unfoldable pub issue_register_ticket : (client_id client_secret : String) → Exec TicketResult
  issue_register_ticket client_id client_secret = do
    guard dep.registration_open registration_closed
    client ← or_error invalid_client (Clients.by_client_id at client_id)
    guard (not (is_public client)) invalid_client
    guard (not (client_secret == "") && dep.verify_password client.client_secret_hash client_secret)
        invalid_client
    guard (not (is_invite_only client)) invite_only_registration
    raw ← mint_ticket client
    pure (record {
      ticket = raw;
      expires_in = registration_ticket_ttl;
      register_url = concat dep.issuer (concat "/register?ticket=" raw);
    })

  -- Every failure is the `false` of the source: there is no link.
  unfoldable pub link_for_public_client : String → Exec (Option String)
  link_for_public_client client_id = attempt (do
    guard (dep.registration_open && not (client_id == "")) invalid_client
    client ← or_error invalid_client (Clients.by_client_id at client_id)
    guard (is_public client && not (is_invite_only client)) invalid_client
    raw ← mint_ticket client
    pure (concat "/register?ticket=" raw))

  unfoldable pub peek_ticket : String → Exec RegistrationTicket
  peek_ticket raw_ticket = do
    guard dep.registration_open registration_closed
    guard (not (raw_ticket == "")) invalid_token
    ticket ← if_not_found invalid_token (Tickets.peek at (dep.hash_token raw_ticket) at.now)
    client ← if_not_found invalid_token (Clients.by_client_id at ticket.client_id)
    guard (not (is_invite_only client)) invite_only_registration
    pure ticket

  abbrev pub new_user : String → String → User
  new_user email hash = record {
    id = "";
    email = email;
    password_hash = hash;
    role = User.Role.user;
    status = pending;
    email_verified_at = none;
    created_at = at.now;
    updated_at = at.now;
  }

  unfoldable pub grant_access : String → String → Exec (Unit {0})
  grant_access id client_id = Accesses.upsert at (record {
    user_id = id;
    client_id = client_id;
    entry_domain = "";
    first_seen_at = at.now;
    last_seen_at = at.now;
  })

  -- A verification token for `token_email` ("" for the primary address), mailed to `to`.
  unfoldable pub send_verification_link : (id token_email to : String) → Exec (Unit {0})
  unfolding send_verification
  send_verification_link id token_email to = do
    raw_token ← or_internal at.random
    create_email_verification_token at
        (record {
          token = raw_token;
          user_id = id;
          email = token_email;
          expires_at = at.now + email_verify_ttl;
        })
        (dep.hash_token raw_token)
    send_verification at to (concat dep.issuer (concat "/verify-email?token=" raw_token))

  -- The checks before anything is written; returns the address, the hash and the ticket.
  unfoldable pub check_registration : RegisterInput → Exec (String × String × RegistrationTicket)
  check_registration input = do
    verify_captcha at input.captcha_token input.remote_ip
    email ← lift (parse_email dep.library input.email)
    password ← lift (new_plain_password input.password)
    ticket ← peek_ticket input.ticket
    taken ← Users.exists_by_email dep at email
    guard (not taken) email_taken
    hash ← or_internal (at.hash_password password)
    pure (email, hash, ticket)

  unfoldable pub complete_registration :
      RegisterInput → String → String → RegistrationTicket → Exec (Unit {0})
  complete_registration input email hash ticket = do
    consumed ← if_not_found invalid_token (Tickets.consume at (dep.hash_token input.ticket) at.now)
    guard (consumed.client_id == ticket.client_id) invalid_token
    id ← Users.create dep at (new_user email hash)
    grant_access id consumed.client_id
    send_verification_link id "" email

  unfoldable pub register_user : RegisterInput → Exec (Unit {0})
  register_user input = do
    checked ← check_registration input
    complete_registration input checked.0 checked.1 checked.2
