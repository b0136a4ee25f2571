-- ===== src/UseCase/Authorize/Grants.antt =====
-- What a successful authorization has checked, and the code that it stores.
use kde_auth.Prelude.{
  none, ne_of_test, ◌+◌, ◌*◌, ◌≤◌, String, len, [], ◌∷◌, ◌++◌, ◌≡◌, ◌≢◌, ◌⊎◌, inl, inr, true, false,
  some, ◌==◌, Bool-cases, Option-cases, find, exists, eq_iff, arith,
}
use kde_auth.Domain.Errors.{ok}
use kde_auth.Domain.Client.{OauthClient, allows_redirect_uri, is_public, is_invite_only}
use kde_auth.Domain.Pkce.{parse_code_challenge_method}
use kde_auth.Domain.Scope.{codes, parse_scope}
use kde_auth.Domain.User.{User, can_authorize}
use kde_auth.Port.{Deployment, Moment}
use kde_auth.State.{State, SessionRow}
use kde_auth.Exec.{ignore, ◌>>=◌}
use kde_auth.Exec.Reads.{Reads, Reads-lift, reads_rules, after_read, lift_value}
use kde_auth.Store.Users.{has_id}
use kde_auth.Store.Clients
use kde_auth.Store.Clients.{client_named}
use kde_auth.Store.Accesses
use kde_auth.Store.Accesses.{access_to}
use kde_auth.Store.Tokens.{null_if_empty}
use kde_auth.Store.Tokens.Codes.{code_hash, code_row, create_authorization_code}
use kde_auth.UseCase.AppAccess.{record_access}
use kde_auth.UseCase.Login.Resolution.{live_row, resolve_session_ok, resolve_session-Reads}
use kde_auth.UseCase.Authorize.{
  AuthorizeInput, AuthorizeResult, check_request, check_challenge, check_access, build_redirect,
  new_code, issue_code, authorize,
}

pub record CodeIssued (dep : Deployment) (at : Moment) (input : AuthorizeInput) (s : State)
    (res : AuthorizeResult) (s' : State) : Type 0 where
  pub client : OauthClient
  pub session : SessionRow
  pub user : User
  pub stored_method : String
  pub raw_code : String
  pub code_flow : input.response_type ≡ "code"
  pub state_given : input.state ≢ ""
  pub scope_accepted : parse_scope (codes input.scope) ≡ ok tt
  pub client_known : find (client_named input.client_id) s.clients ≡ some client
  pub redirect_registered : allows_redirect_uri client input.redirect_uri ≡ true
  pub session_live : live_row dep at input.session_token s ≡ some session
  pub user_known : find (has_id session.session.user_id) s.users ≡ some user
  pub allowed : can_authorize user ≡ ok tt
  pub public_sends_challenge : is_public client ≡ true → input.code_challenge ≢ ""
  pub challenge_stored :
      ((input.code_challenge ≡ "") × (stored_method ≡ ""))
      ⊎ ((stored_method ≡ "S256")
          × (43 ≤ len input.code_challenge)
          × (len input.code_challenge ≤ 128))
  pub invited :
      is_invite_only client ≡ true → exists (access_to user.id client.client_id) s.accesses ≡ true
  pub drawn : at.random ≡ some raw_code
  pub stored :
      s'.codes
      ≡ s.codes
        ++ record {
          code_hash = dep.hash_token raw_code;
          user_id = user.id;
          client_id = client.client_id;
          redirect_uri = input.redirect_uri;
          scope = input.scope;
          code_challenge = null_if_empty input.code_challenge;
          code_challenge_method = null_if_empty stored_method;
          expires_at = at.now + 5 * 60;
          used_at = none;
        }
          ∷ []
  pub fresh : exists (code_hash (dep.hash_token raw_code)) s.codes ≡ false
  pub same_clients : s'.clients ≡ s.clients
  pub same_users : s'.users ≡ s.users
  pub same_package : res.android_package ≡ client.android_package
  pub redirected : res.redirect_url ≡ dep.with_code input.redirect_uri raw_code input.state

module _ (dep : Deployment) (at : Moment) where
  pub check_request-Reads : (input : AuthorizeInput) → Reads (check_request dep at input)
  unfolding check_request Clients.by_client_id
  check_request-Reads input = search reads_rules depth 12

  pub check_access-Reads : (client : OauthClient) (u : User) → Reads (check_access dep at client u)
  unfolding check_access Accesses.has_access
  check_access-Reads client u = search reads_rules depth 12

  check_request_ok :
      (input : AuthorizeInput) (s : State) (client : OauthClient)
      → (check_request dep at input s).0 ≡ ok client
      → (input.response_type ≡ "code")
        × (input.state ≢ "")
        × (parse_scope (codes input.scope) ≡ ok tt)
        × (find (client_named input.client_id) s.clients ≡ some client)
        × (allows_redirect_uri client input.redirect_uri ≡ true)
  unfolding check_request Clients.by_client_id ◌>>=◌
  check_request_ok input s client h = (
    (eq_iff input.response_type "code").0 (ground arith),
    ne_of_test input.state "" (ground arith),
    ground arith,
    ground arith,
    ground arith,
  )

  check_access_ok :
      (client : OauthClient) (u : User) (s : State)
      → (check_access dep at client u s).0 ≡ ok tt
      → is_invite_only client ≡ true
      → exists (access_to u.id client.client_id) s.accesses ≡ true
  unfolding check_access Accesses.has_access ◌>>=◌
  check_access_ok client u s h only = ground arith

check_challenge_ok :
    (client : OauthClient) (challenge raw m : String)
    → check_challenge client challenge raw ≡ ok m
    → (is_public client ≡ true → challenge ≢ "")
      × (((challenge ≡ "") × (m ≡ ""))
          ⊎ ((m ≡ "S256") × (43 ≤ len challenge) × (len challenge ≤ 128)))
unfolding check_challenge parse_code_challenge_method
check_challenge_ok client challenge raw m h = (
  λ p e. ground (arith, (eq_iff challenge "").1 e),
  elim (Bool-cases (challenge == "")) [
    | inl e ↦ inl ((eq_iff challenge "").0 e, ground arith)
    | inr e ↦ inr (ground arith, ground arith, ground arith)
  ],
)

module _ (dep : Deployment) (at : Moment) where
  pub codes-record_access :
      (id client_id uri : String) (s : State)
      → (record_access dep at id client_id uri s).1.codes ≡ s.codes
  unfolding record_access Accesses.upsert ◌>>=◌
  codes-record_access id client_id uri s = ground arith

  pub users-record_access :
      (id client_id uri : String) (s : State)
      → ((record_access dep at id client_id uri s).1.users ≡ s.users)
        × ((record_access dep at id client_id uri s).1.clients ≡ s.clients)
  unfolding record_access Accesses.upsert ◌>>=◌
  users-record_access id client_id uri s = (ground arith, ground arith)

  pub build_redirect_ok :
      (uri code state url : String)
      → build_redirect dep at uri code state ≡ ok url
      → url ≡ dep.with_code uri code state
  unfolding build_redirect
  build_redirect_ok uri code state url h = ground arith

  pub issue_code_ok :
      (input : AuthorizeInput) (client : OauthClient) (m : String) (u : User) (s : State)
      (res : AuthorizeResult) (t : State)
      → issue_code dep at input client m u s ≡ (ok res, t)
      → (raw : String) × (at.random ≡ some raw)
        × (t.codes
            ≡ s.codes ++ code_row (new_code dep at input client m u) (dep.hash_token raw) ∷ [])
        × (exists (code_hash (dep.hash_token raw)) s.codes ≡ false)
        × (t.clients ≡ s.clients)
        × (t.users ≡ s.users)
        × (res.android_package ≡ client.android_package)
        × (res.redirect_url ≡ dep.with_code input.redirect_uri raw input.state)
  unfolding issue_code create_authorization_code ◌>>=◌ ignore
  issue_code_ok input client m u s res t h = elim (Option-cases at.random) [
    | inl missing ↦ absurd (ground arith)
    | inr (raw, drawn) ↦
        let row = code_row (new_code dep at input client m u) (dep.hash_token raw) in
        let s₁ = record s { codes = s.codes ++ row ∷ [] } in
        let recorded = codes-record_access u.id client.client_id input.redirect_uri s₁ in
        let kept = users-record_access u.id client.client_id input.redirect_uri s₁ in
        (
          raw,
          drawn,
          ground (arith, recorded),
          ground arith,
          ground (arith, kept.1),
          ground (arith, kept.0),
          ground arith,
          ground (arith, build_redirect_ok input.redirect_uri raw input.state res.redirect_url),
        )
  ]

  pub authorize-CodeIssued :
      (input : AuthorizeInput) (s : State) (res : AuthorizeResult) (s' : State)
      → authorize dep at input s ≡ (ok res, s')
      → CodeIssued dep at input s res s'
  unfolding authorize
  authorize-CodeIssued input s res s' h =
      after_read _ _ s (check_request-Reads dep at input) h λ client p h₁.
        after_read _ _ s (Reads-lift _) h₁ λ m q h₂.
          after_read _ _ s (resolve_session-Reads dep at _) h₂ λ user r h₃.
            after_read _ _ s (check_access-Reads dep at client user) h₃ λ _ a h₄.
              let (flow, state, scope, known, registered) =
                check_request_ok dep at input s client p in
              let (sent, stored) = check_challenge_ok client _ _ m (lift_value _ s m q) in
              let (row, live, owner, may) = resolve_session_ok dep at _ s user r in
              let (raw, drawn, codes, fresh, clients, users, app, url) =
                issue_code_ok input client m user s res s' h₄ in
              record {
                client = client;
                session = row;
                user = user;
                stored_method = m;
                raw_code = raw;
                code_flow = flow;
                state_given = state;
                scope_accepted = scope;
                client_known = known;
                redirect_registered = registered;
                session_live = live;
                user_known = owner;
                allowed = may;
                public_sends_challenge = sent;
                challenge_stored = stored;
                invited = check_access_ok dep at client user s a;
                drawn = drawn;
                stored = codes;
                fresh = fresh;
                same_clients = clients;
                same_users = users;
                same_package = app;
                redirected = url;
              }
