-- ===== src/UseCase/Exchange/Grants.antt =====
-- What a successful exchange of an authorization code has checked, and what it leaves behind.
use kde_auth.Prelude.{
  List, none, ◌∙◌, ap, ◌+◌, ◌*◌, ◌≤◌, String, len, ◌≡◌, ◌⊎◌, inl, inr, true, false, some, ◌==◌,
  Bool-cases, Option-cases, [], ◌∷◌, ◌++◌, find, update_where, eq_iff, arith,
}
use kde_auth.Domain.Errors.{ok, invalid_grant}
use kde_auth.Domain.Client.{OauthClient, is_public}
use kde_auth.Domain.Pkce.{verify_pkce_s256}
use kde_auth.Domain.Scope.{codes, scope_includes, scope_offline_access}
use kde_auth.Domain.User.{User, can_authorize, is_email_verified}
use kde_auth.Prelude.Rows.{find-holds}
use kde_auth.Port.{Deployment, Moment, AccessClaims}
use kde_auth.State.{State, CodeRow, RefreshRow}
use kde_auth.Exec.{lift, ◌>>=◌}
use kde_auth.Exec.Reads.{Reads, Reads-lift, reads_rules, after_read, lift_value}
use kde_auth.Store.Clients
use kde_auth.Store.Clients.{client_named}
use kde_auth.Store.Users.{has_id}
use kde_auth.Store.Users
use kde_auth.Store.Tokens.{coalesce}
use kde_auth.Store.Tokens.Codes.{code_hash, code_of, usable_code, use_code}
use kde_auth.Store.Tokens.Codes.Consumption.{after_consume, with_used}
use kde_auth.Store.Tokens.Refreshes.{create_refresh_token}
use kde_auth.UseCase.Exchange.{
  TokenInput, TokenResult, secret_accepted, authenticate_client, check_code, load_user,
  issue_refresh, issue_tokens, exchange_code,
}

-- The code has no challenge and is no public client's, or it has one and the client has shown the
-- verifier of it.
pub data Proven (dep : Deployment) (client : OauthClient) (row : CodeRow) (verifier : String)
    : Type 0 where
  by_verifier :
      coalesce row.code_challenge_method ≡ "S256"
      → dep.s256 verifier ≡ coalesce row.code_challenge
      → 43 ≤ len verifier
      → len verifier ≤ 128
      → Proven dep client row verifier
  by_secret :
      coalesce row.code_challenge ≡ "" → is_public client ≡ false → Proven dep client row verifier

-- What the access token says: the user of it, for the client, for 15 minutes.
abbrev pub access_claims : Moment → User → String → AccessClaims
access_claims at user client_id = record {
  subject = user.id;
  audience = client_id;
  email = user.email;
  email_verified = is_email_verified user;
  role = user.role;
  expires_at = at.now + 15 * 60;
}

-- An unused refresh token of 30 days, by its hash.
abbrev pub issued_row : Deployment → Moment → User → (client_id scope raw : String) → RefreshRow
issued_row dep at user client_id scope raw = record {
  token_hash = dep.hash_token raw;
  user_id = user.id;
  client_id = client_id;
  scope = scope;
  expires_at = at.now + 30 * 24 * 3600;
  revoked_at = none;
}

-- Without the scope offline_access no refresh token is stored and none is returned; with it, the
-- random draw is returned, and its hash is stored for the user, the client and the scope, for 30
-- days and not revoked.
abbrev pub RefreshIssued :
    Deployment
    → Moment
    → User
    → (client_id scope token : String) → (before after : List RefreshRow) → Type 0
RefreshIssued dep at user client_id scope token before after =
    ((scope_includes (codes scope) scope_offline_access ≡ false) × (token ≡ "") × (after ≡ before))
    ⊎ ((scope_includes (codes scope) scope_offline_access ≡ true)
        × (at.random ≡ some token)
        × (after ≡ before ++ issued_row dep at user client_id scope token ∷ []))

pub authenticate_client-Reads :
    (dep : Deployment) (at : Moment) (client_id secret : String)
    → Reads (authenticate_client dep at client_id secret)
unfolding authenticate_client Clients.by_client_id
authenticate_client-Reads dep at client_id secret = search reads_rules

pub load_user-Reads : (dep : Deployment) (at : Moment) (id : String) → Reads (load_user dep at id)
unfolding load_user Users.by_id
load_user-Reads dep at id = search reads_rules

pub record CodeGrant (dep : Deployment) (at : Moment) (input : TokenInput) (s : State)
    (res : TokenResult) (s' : State) : Type 0 where
  pub client : OauthClient
  pub row : CodeRow
  pub user : User
  pub client_known : find (client_named input.client_id) s.clients ≡ some client
  pub authenticated : secret_accepted dep at client input.client_secret ≡ true
  pub row_known : find (code_hash (dep.hash_token input.code)) s.codes ≡ some row
  pub usable : usable_code at.now row ≡ true
  pub same_client : row.client_id ≡ client.client_id
  pub same_redirect : row.redirect_uri ≡ input.redirect_uri
  pub proven : Proven dep client row input.code_verifier
  pub user_known : find (has_id row.user_id) s.users ≡ some user
  pub allowed : can_authorize user ≡ ok tt
  pub same_user : user.id ≡ row.user_id
  pub signed : dep.access_token (access_claims at user client.client_id) ≡ some res.access_token
  pub same_scope : res.scope ≡ row.scope
  pub renewable :
      RefreshIssued dep at user client.client_id row.scope res.refresh_token s.refreshes
        s'.refreshes
  pub spent :
      s'.codes ≡ update_where (code_hash (dep.hash_token input.code)) (use_code at.now) s.codes

module _ (dep : Deployment) (at : Moment) where
  check_code_ok :
      (client : OauthClient) (row : CodeRow) (input : TokenInput)
      → check_code dep at client (code_of row) input ≡ ok tt
      → (row.client_id ≡ client.client_id)
        × (row.redirect_uri ≡ input.redirect_uri)
        × Proven dep client row input.code_verifier
  unfolding check_code verify_pkce_s256
  check_code_ok client row input h = (
    ground (arith, eq_iff row.client_id client.client_id),
    ground (arith, eq_iff row.redirect_uri input.redirect_uri),
    elim (Bool-cases (coalesce row.code_challenge == "")) [
      | inl none_stored ↦
          by_secret ((eq_iff (coalesce row.code_challenge) "").0 none_stored) (ground arith)
      | inr stored ↦
          by_verifier (ground (arith, eq_iff (coalesce row.code_challenge_method) "S256"))
            (ground (arith, eq_iff (dep.s256 input.code_verifier) (coalesce row.code_challenge)))
            (ground arith) (ground arith)
    ],
  )

  pub issue_tokens_ok :
      (user : User) (client_id scope : String) (s : State) {res : TokenResult} {t : State}
      → issue_tokens dep at user client_id scope s ≡ (ok res, t)
      → (dep.access_token (access_claims at user client_id) ≡ some res.access_token)
        × (res.scope ≡ scope)
        × (t.codes ≡ s.codes)
        × RefreshIssued dep at user client_id scope res.refresh_token s.refreshes t.refreshes
  unfolding issue_tokens issue_refresh create_refresh_token ◌>>=◌
  issue_tokens_ok user client_id scope s {res} {t} h = (
    ground arith,
    ground arith,
    ground arith,
    elim (Bool-cases (scope_includes (codes scope) scope_offline_access)) [
      | inr online ↦ inl (online, ground arith, ground arith)
      | inl offline ↦ elim (Option-cases at.random) [
        | inl missing ↦ absurd (ground arith)
        | inr (raw, drawn) ↦
            let same : raw ≡ res.refresh_token = ground arith in
            let stored : t.refreshes
                ≡ s.refreshes ++ issued_row dep at user client_id scope raw ∷ [] =
              ground arith in
            inr (
              offline,
              drawn ∙ ap some same,
              stored ∙ ap (λ r. s.refreshes ++ issued_row dep at user client_id scope r ∷ []) same,
            )
      ]
    ],
  )

  pub load_user_ok :
      (id : String) (s : State) (user : User)
      → (load_user dep at id s).0 ≡ ok user
      → (find (has_id id) s.users ≡ some user) × (can_authorize user ≡ ok tt)
  unfolding load_user Users.by_id ◌>>=◌
  load_user_ok id s user h = (ground arith, ground arith)

  pub authenticate_client_ok :
      (client_id secret : String) (s : State) (client : OauthClient)
      → (authenticate_client dep at client_id secret s).0 ≡ ok client
      → (find (client_named client_id) s.clients ≡ some client)
        × (secret_accepted dep at client secret ≡ true)
  unfolding authenticate_client Clients.by_client_id ◌>>=◌
  authenticate_client_ok client_id secret s client h = (ground arith, ground arith)

  -- A token response for an authorization code comes only from a known client that has
  -- authenticated, for a stored code that is unused, unexpired, issued to that client and bound to
  -- the same redirect URI; where the code has a challenge, the PKCE verifier of it was shown, and
  -- where it has none the client is no public one; the user of the code exists and may authorize;
  -- the access token is signed for that user and client, the scope is that of the code, and the
  -- code is marked as used. With the scope offline_access the response has the random draw as its
  -- refresh token, stored by its hash for that user, client and scope; without it, no refresh token
  -- is stored and the response has none.
  pub exchange_code-CodeGrant :
      (input : TokenInput) (s : State) (res : TokenResult) (s' : State)
      → exchange_code dep at input s ≡ (ok res, s')
      → CodeGrant dep at input s res s'
  unfolding exchange_code
  exchange_code-CodeGrant input s res s' h =
      after_read _ _ s (authenticate_client-Reads dep at _ _) h λ client p h₁.
        after_consume at invalid_grant _ _ _ s h₁ λ row found usable h₂.
          after_read (lift (check_code dep at client (code_of row) input)) _ _ (Reads-lift _) h₂
            λ _ q h₃. after_read _ _ _ (load_user-Reads dep at _) h₃ λ user u h₄.
              let (known, secret) = authenticate_client_ok _ _ s client p in
              let (bound, redirect, proof) =
                check_code_ok client row input (lift_value _ (with_used _ at.now s) tt q) in
              let (user_found, may) = load_user_ok row.user_id (with_used _ at.now s) user u in
              let (token, scope, codes, issued) =
                issue_tokens_ok user client.client_id row.scope _ h₄ in
              record {
                client = client;
                row = row;
                user = user;
                client_known = known;
                authenticated = secret;
                row_known = found;
                usable = usable;
                same_client = bound;
                same_redirect = redirect;
                proven = proof;
                user_known = user_found;
                allowed = may;
                same_user = (eq_iff user.id row.user_id).0 (find-holds _ s.users user_found);
                signed = token;
                same_scope = scope;
                renewable = issued;
                spent = codes;
              }
