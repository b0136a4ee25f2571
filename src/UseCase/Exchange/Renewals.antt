-- ===== src/UseCase/Exchange/Renewals.antt =====
-- What a successful exchange of a refresh token has checked, and how it rotates the token.
use kde_auth.Prelude.{◌≡◌, true, some, ◌==◌, find, update_where, eq_iff}
use kde_auth.Prelude.Rows.{find-holds}
use kde_auth.Domain.Errors.{ok, invalid_grant}
use kde_auth.Domain.Client.{OauthClient}
use kde_auth.Domain.User.{User, can_authorize}
use kde_auth.Port.{Deployment, Moment}
use kde_auth.State.{State, RefreshRow}
use kde_auth.Exec.Reads.{after_read, after_guard}
use kde_auth.Store.Clients.{client_named}
use kde_auth.Store.Users.{has_id}
use kde_auth.Store.Tokens.Refreshes.{refresh_hash, usable_refresh, revoke_refresh_row}
use kde_auth.Store.Tokens.Refreshes.Rotation.{after_consume_refresh, with_revoked}
use kde_auth.UseCase.Exchange.{TokenInput, TokenResult, secret_accepted, refresh}
use kde_auth.UseCase.Exchange.Grants.{
  authenticate_client-Reads, authenticate_client_ok, load_user-Reads, load_user_ok, issue_tokens_ok,
  access_claims, RefreshIssued,
}

pub record RefreshGrant (dep : Deployment) (at : Moment) (input : TokenInput) (s : State)
    (res : TokenResult) (s' : State) : Type 0 where
  pub client : OauthClient
  pub row : RefreshRow
  pub user : User
  pub client_known : find (client_named input.client_id) s.clients ≡ some client
  pub authenticated : secret_accepted dep at client input.client_secret ≡ true
  pub row_known : find (refresh_hash (dep.hash_token input.refresh_token)) s.refreshes ≡ some row
  pub usable : usable_refresh at.now row ≡ true
  pub same_client : row.client_id ≡ client.client_id
  pub user_known : find (has_id row.user_id) s.users ≡ some user
  pub allowed : can_authorize user ≡ ok tt
  pub same_user : user.id ≡ row.user_id
  pub signed : dep.access_token (access_claims at user client.client_id) ≡ some res.access_token
  pub same_scope : res.scope ≡ row.scope
  pub rotated :
      let spent =
        update_where
          (refresh_hash (dep.hash_token input.refresh_token))
          (revoke_refresh_row at.now)
          s.refreshes in
      RefreshIssued dep at user client.client_id row.scope res.refresh_token spent s'.refreshes

module _ (dep : Deployment) (at : Moment) where
  -- A token response for a refresh token comes only from a known client that has authenticated,
  -- for a stored token that is neither revoked nor expired and was issued to that client, and for a
  -- user who may still authorize; the access token is signed for that user and client and has the
  -- old scope. The old token is revoked; where its scope has offline_access the response has a new
  -- one, the random draw, whose hash is stored for the same user, client and scope; otherwise no
  -- refresh token is stored and the response has none.
  pub refresh-RefreshGrant :
      (input : TokenInput) (s : State) (res : TokenResult) (s' : State)
      → refresh dep at input s ≡ (ok res, s')
      → RefreshGrant dep at input s res s'
  unfolding refresh
  refresh-RefreshGrant input s res s' h =
      after_read _ _ s (authenticate_client-Reads dep at _ _) h λ client p h₁.
        after_consume_refresh at invalid_grant _ _ _ s h₁ λ row found usable h₂.
          after_guard (row.client_id == client.client_id) invalid_grant _ _ h₂ λ bound h₃.
            after_read _ _ _ (load_user-Reads dep at _) h₃ λ user u h₄.
              let (known, secret) = authenticate_client_ok dep at _ _ s client p in
              let (owner, may) = load_user_ok dep at row.user_id (with_revoked _ at.now s) user u in
              let (token, scope, _, rotated) =
                issue_tokens_ok dep at user client.client_id row.scope _ h₄ in
              record {
                client = client;
                row = row;
                user = user;
                client_known = known;
                authenticated = secret;
                row_known = found;
                usable = usable;
                same_client = (eq_iff row.client_id client.client_id).0 bound;
                user_known = owner;
                allowed = may;
                same_user = (eq_iff user.id row.user_id).0 (find-holds _ s.users owner);
                signed = token;
                same_scope = scope;
                rotated = rotated;
              }
