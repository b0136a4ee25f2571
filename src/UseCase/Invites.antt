-- ===== src/UseCase/Invites.antt =====
-- internal/usecase/invite.go
pub mod Preview
pub mod Loading
pub mod Acceptance
use kde_auth.Prelude.{ℕ, ◌+◌, ◌*◌, String, none, not, ◌==◌, concat, [], ◌∷◌, ◌++◌}
use kde_auth.Domain.Errors.{forbidden, unauthorized, invalid_token, email_taken, validation_error}
use kde_auth.Domain.Email.{parse_email}
use kde_auth.Domain.Pkce.{new_plain_password}
use kde_auth.Domain.Client.{OauthClient}
use kde_auth.Domain.Invite.{Invite, is_usable}
use kde_auth.Domain.User.{User, is_admin}
use kde_auth.Port.{Deployment, Moment, mail_invite}
use kde_auth.State.{Mail}
use kde_auth.Exec.{
  Exec, pure, lift, guard, ignore, write, transaction, or_error, if_not_found, or_internal, ◌>>=◌,
  ◌>>◌,
}
use kde_auth.Store.Clients
use kde_auth.Store.Users
use kde_auth.Store.Invites
use kde_auth.UseCase.Captcha.{verify_captcha}
use kde_auth.UseCase.Login.{resolve_session}
use kde_auth.UseCase.Register.{new_user, grant_access, send_verification_link}

abbrev pub invite_ttl : ℕ
invite_ttl = 14 * 24 * 3600

pub record CreateInviteResult : Type 0 where
  pub invite : Invite
  pub accept_url : String

pub record RegisterViaInviteInput : Type 0 where
  pub token : String
  pub password : String
  pub captcha_token : String
  pub remote_ip : String

unfoldable pub send_invite : Moment → String → String → String → Exec (Unit {0})
send_invite at to app url =
    transaction at mail_invite
      (write (λ s. record s { outbox = s.outbox ++ Mail.invitation to app url ∷ [] }))

module _ (dep : Deployment) (at : Moment) where
  abbrev pub new_invite : User → OauthClient → String → Invite
  new_invite actor client email = record {
    id = "";
    token = "";
    client_id = client.client_id;
    email = email;
    created_by = actor.id;
    expires_at = at.now + invite_ttl;
    used_at = none;
    revoked_at = none;
    created_at = at.now;
  }

  unfoldable pub create_invite : User → (client_id email : String) → Exec CreateInviteResult
  unfolding send_invite
  create_invite actor client_id raw_email = do
    guard (is_admin actor) forbidden
    email ← lift (parse_email dep.library raw_email)
    client ←
        if_not_found (validation_error "client_id" "unknown client")
          (Clients.by_client_id at client_id)
    raw ← or_internal at.random
    Invites.create dep at (new_invite actor client email) (dep.hash_token raw)
    let accept_url = concat dep.issuer (concat "/invite?token=" raw)
    ignore (send_invite at email client.name accept_url)
    pure (record {
      invite = record (new_invite actor client email) { token = raw };
      accept_url = accept_url;
    })

  unfoldable pub revoke_invite : User → String → Exec (Unit {0})
  revoke_invite actor invite_id = do
    guard (is_admin actor) forbidden
    guard (not (invite_id == "")) (validation_error "invite_id" "required")
    Invites.revoke dep at invite_id at.now

  unfoldable pub load_usable : String → Exec (Invite × OauthClient)
  load_usable raw_token = do
    guard (not (raw_token == "")) invalid_token
    invite ← if_not_found invalid_token (Invites.by_token_hash dep at (dep.hash_token raw_token))
    guard (is_usable invite at.now) invalid_token
    client ← Clients.by_client_id at invite.client_id
    pure (invite, client)

  unfoldable pub accept_existing : (raw_token session_token : String) → Exec (Unit {0})
  accept_existing raw_token session_token = do
    loaded ← load_usable raw_token
    user ← or_error unauthorized (resolve_session dep at session_token)
    guard (user.email == loaded.0.email)
        (validation_error "email" "sign in with the invited email address")
    grant_access dep at user.id loaded.1.client_id
    Invites.consume dep at loaded.0.id at.now

  unfoldable pub register_via_invite : RegisterViaInviteInput → Exec (Unit {0})
  register_via_invite input = do
    loaded ← load_usable input.token
    verify_captcha at input.captcha_token input.remote_ip
    password ← lift (new_plain_password input.password)
    taken ← Users.exists_by_email dep at loaded.0.email
    guard (not taken) email_taken
    hash ← or_internal (at.hash_password password)
    id ← Users.create dep at (new_user dep at loaded.0.email hash)
    grant_access dep at id loaded.1.client_id
    Invites.consume dep at loaded.0.id at.now
    send_verification_link dep at id "" loaded.0.email
