-- ===== src/Service/Preserved/OneTable.antt =====
-- An invariant on one table of tokens: the methods on the other tables keep it.
use kde_auth.Prelude.{ℕ, String, List, ◌≡◌, some, delete_where, ◌==◌}
use kde_auth.Domain.Token.{AuthorizationCode, RefreshToken}
use kde_auth.Port.{Deployment, Moment}
use kde_auth.State.{CodeRow, RefreshRow}
use kde_auth.Exec.Keeps.{Keeps, keeps_rules, Keeps-write}
use kde_auth.Store.Users
use kde_auth.Store.Emails
use kde_auth.Store.Tickets
use kde_auth.Store.Tokens.Codes.{create_authorization_code, consume_authorization_code}
use kde_auth.Store.Tokens.Refreshes.{
  create_refresh_token, consume_refresh_token, revoke_all_refresh_tokens_for_user,
}
use kde_auth.Store.Tokens.Verifications.{
  create_email_verification_token, consume_email_verification_token,
}
use kde_auth.Store.Tokens.Resets.{create_password_reset_token, consume_password_reset_token}
use kde_auth.Service.Preserved.{Preserved}

module _ (dep : Deployment) (at : Moment) (Q : List CodeRow → Type 0) where
  pub codes_only :
      ((code : AuthorizationCode) (raw : String)
        → at.random ≡ some raw
        → Keeps (λ s. Q s.codes) (create_authorization_code at code (dep.hash_token raw)))
      → ((h : String) (now : ℕ) → Keeps (λ s. Q s.codes) (consume_authorization_code at h now))
      → ((id : String) (rows : List CodeRow)
          → Q rows
          → Q (delete_where (λ r. r.user_id == id) rows))
      → Preserved dep at (λ s. Q s.codes)
  unfolding Users.create Users.mark_email_verified Users.update_password Users.set_status
      Users.delete Emails.insert_pending_secondary Emails.mark_verified
      Emails.delete_pending_secondary Emails.delete_verified create_refresh_token
      consume_refresh_token revoke_all_refresh_tokens_for_user create_email_verification_token
      consume_email_verification_token create_password_reset_token consume_password_reset_token
      Tickets.create Tickets.consume
  codes_only created consumed removed = record {
    ignores = record {
      sessions = λ s x p. p;
      clients = λ s x p. p;
      invites = λ s x p. p;
      accesses = λ s x p. p;
      outbox = λ s x p. p;
    };
    create_user = λ u. search (keeps_rules, Keeps-write);
    mark_email_verified = λ id. search (keeps_rules, Keeps-write);
    update_password = λ id hash. search (keeps_rules, Keeps-write);
    set_status = λ id status. search (keeps_rules, Keeps-write);
    delete_user = λ id. search (keeps_rules, Keeps-write, removed);
    insert_pending = λ id email. search (keeps_rules, Keeps-write);
    mark_verified = λ id email. search (keeps_rules, Keeps-write);
    delete_pending = λ id. search (keeps_rules, Keeps-write);
    delete_verified = λ id email. search (keeps_rules, Keeps-write) depth 16;
    create_code = created;
    consume_code = consumed;
    create_refresh = λ token raw drawn. search (keeps_rules, Keeps-write);
    consume_refresh = λ h now. search (keeps_rules, Keeps-write);
    revoke_refreshes = λ id now. search (keeps_rules, Keeps-write);
    create_verification = λ token raw drawn. search (keeps_rules, Keeps-write);
    consume_verification = λ h now. search (keeps_rules, Keeps-write);
    create_reset = λ token raw drawn. search (keeps_rules, Keeps-write);
    consume_reset = λ h now. search (keeps_rules, Keeps-write);
    create_ticket = λ ticket raw drawn. search (keeps_rules, Keeps-write);
    consume_ticket = λ h now. search (keeps_rules, Keeps-write);
  }

module _ (dep : Deployment) (at : Moment) (Q : List RefreshRow → Type 0) where
  pub refreshes_only :
      ((token : RefreshToken) (raw : String)
        → at.random ≡ some raw
        → Keeps (λ s. Q s.refreshes) (create_refresh_token at token (dep.hash_token raw)))
      → ((h : String) (now : ℕ) → Keeps (λ s. Q s.refreshes) (consume_refresh_token at h now))
      → ((id : String) (rows : List RefreshRow)
          → Q rows
          → Q (delete_where (λ r. r.user_id == id) rows))
      → ((id : String) (now : ℕ)
          → Keeps (λ s. Q s.refreshes) (revoke_all_refresh_tokens_for_user at id now))
      → Preserved dep at (λ s. Q s.refreshes)
  unfolding Users.create Users.mark_email_verified Users.update_password Users.set_status
      Users.delete Emails.insert_pending_secondary Emails.mark_verified
      Emails.delete_pending_secondary Emails.delete_verified create_authorization_code
      consume_authorization_code create_email_verification_token consume_email_verification_token
      create_password_reset_token consume_password_reset_token Tickets.create Tickets.consume
  refreshes_only created consumed removed revoked = record {
    ignores = record {
      sessions = λ s x p. p;
      clients = λ s x p. p;
      invites = λ s x p. p;
      accesses = λ s x p. p;
      outbox = λ s x p. p;
    };
    create_user = λ u. search (keeps_rules, Keeps-write);
    mark_email_verified = λ id. search (keeps_rules, Keeps-write);
    update_password = λ id hash. search (keeps_rules, Keeps-write);
    set_status = λ id status. search (keeps_rules, Keeps-write);
    delete_user = λ id. search (keeps_rules, Keeps-write, removed);
    insert_pending = λ id email. search (keeps_rules, Keeps-write);
    mark_verified = λ id email. search (keeps_rules, Keeps-write);
    delete_pending = λ id. search (keeps_rules, Keeps-write);
    delete_verified = λ id email. search (keeps_rules, Keeps-write) depth 16;
    create_code = λ code raw drawn. search (keeps_rules, Keeps-write);
    consume_code = λ h now. search (keeps_rules, Keeps-write);
    create_refresh = created;
    consume_refresh = consumed;
    revoke_refreshes = revoked;
    create_verification = λ token raw drawn. search (keeps_rules, Keeps-write);
    consume_verification = λ h now. search (keeps_rules, Keeps-write);
    create_reset = λ token raw drawn. search (keeps_rules, Keeps-write);
    consume_reset = λ h now. search (keeps_rules, Keeps-write);
    create_ticket = λ ticket raw drawn. search (keeps_rules, Keeps-write);
    consume_ticket = λ h now. search (keeps_rules, Keeps-write);
  }
