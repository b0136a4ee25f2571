-- ===== src/UseCase/Exchange/Completeness.antt =====
-- The exchange of a code succeeds where its checks hold and no call outside the program fails.
use kde_auth.Prelude.{
  ◌≤◌, String, len, [], ◌∷◌, ◌++◌, str_ne, ap, ◌≢◌, ◌≡◌, refl, ◌∙◌, ◌⊎◌, inl, inr, true, false,
  some, ◌==◌, Bool-cases, find, exists, eq_iff, arith,
}
use kde_auth.Domain.Errors.{ok, invalid_grant}
use kde_auth.Domain.Client.{OauthClient, is_public}
use kde_auth.Domain.Pkce.{verify_pkce_s256}
use kde_auth.Domain.Scope.{codes, scope_includes, scope_offline_access}
use kde_auth.Domain.User.{User, can_authorize}
use kde_auth.Port.{Deployment, Moment, clients_by_id, users_by_id, codes_consume, refresh_create}
use kde_auth.State.{State, CodeRow}
use kde_auth.Exec.{◌>>=◌}
use kde_auth.Exec.Rules.{bind-run, lift-run, if_not_found-run}
use kde_auth.Store.Clients
use kde_auth.Store.Clients.{client_named}
use kde_auth.Store.Users
use kde_auth.Store.Users.{has_id}
use kde_auth.Store.Tokens.{coalesce}
use kde_auth.Store.Tokens.Codes.{code_hash, code_of, usable_code}
use kde_auth.Store.Tokens.Codes.Consumption.{consume-run, with_used}
use kde_auth.Store.Tokens.Refreshes.{refresh_hash, refresh_row, create_refresh_token}
use kde_auth.UseCase.Exchange.{
  TokenInput, TokenResult, secret_accepted, authenticate_client, check_code, load_user, claims_of,
  issue_refresh, issue_tokens, exchange_code, token_result, new_refresh,
}

-- What the code demands of the client: the verifier of its challenge, or to be no public client.
abbrev pub Redeemable : Deployment → OauthClient → CodeRow → String → Type 0
Redeemable dep client row verifier =
    ((coalesce row.code_challenge ≢ "")
      × (coalesce row.code_challenge_method ≡ "S256")
      × (dep.s256 verifier ≡ coalesce row.code_challenge)
      × (43 ≤ len verifier)
      × (len verifier ≤ 128))
    ⊎ ((coalesce row.code_challenge ≡ "") × (is_public client ≡ false))

len-positive : (v : String) → 43 ≤ len v → (v == "") ≡ false
len-positive v h = elim (Bool-cases (v == "")) [
  | inl e ↦ absurd (omega (arith, ap len ((eq_iff v "").0 e)))
  | inr e ↦ e
]

-- The calls that an exchange makes outside the program all answer.
pub record Available (dep : Deployment) (at : Moment) (s : State) : Type 0 where
  pub raw_refresh : String
  pub drawn : at.random ≡ some raw_refresh
  pub unused : exists (refresh_hash (dep.hash_token raw_refresh)) s.refreshes ≡ false
  pub clients_answer : at.fails clients_by_id ≡ false
  pub users_answer : at.fails users_by_id ≡ false
  pub codes_answer : at.fails codes_consume ≡ false
  pub refreshes_answer : at.fails refresh_create ≡ false

module _ (dep : Deployment) (at : Moment) where
  pub authenticate_client-run :
      (client_id secret : String) (s : State) (client : OauthClient)
      → at.fails clients_by_id ≡ false
      → find (client_named client_id) s.clients ≡ some client
      → secret_accepted dep at client secret ≡ true
      → authenticate_client dep at client_id secret s ≡ (ok client, s)
  unfolding authenticate_client Clients.by_client_id ◌>>=◌
  authenticate_client-run client_id secret s client f known accepted = ground arith

  pub load_user-run :
      (id : String) (s : State) (user : User)
      → at.fails users_by_id ≡ false
      → find (has_id id) s.users ≡ some user
      → can_authorize user ≡ ok tt
      → load_user dep at id s ≡ (ok user, s)
  unfolding load_user Users.by_id ◌>>=◌
  load_user-run id s user f known allowed = ground arith

  check_code-run :
      (client : OauthClient) (row : CodeRow) (input : TokenInput)
      → row.client_id ≡ client.client_id
      → row.redirect_uri ≡ input.redirect_uri
      → Redeemable dep client row input.code_verifier
      → check_code dep at client (code_of row) input ≡ ok tt
  unfolding check_code verify_pkce_s256
  check_code-run client row input c r (inl (sent, method, digest, least, most)) = ground (
    arith,
    (eq_iff row.client_id client.client_id).1 c,
    (eq_iff row.redirect_uri input.redirect_uri).1 r,
    str_ne _ _ sent,
    (eq_iff (coalesce row.code_challenge_method) "S256").1 method,
    (eq_iff (dep.s256 input.code_verifier) (coalesce row.code_challenge)).1 digest,
    len-positive input.code_verifier least,
  )
  check_code-run client row input c r (inr (unsent, secret)) = ground (
    arith,
    (eq_iff row.client_id client.client_id).1 c,
    (eq_iff row.redirect_uri input.redirect_uri).1 r,
    (eq_iff (coalesce row.code_challenge) "").1 unsent,
  )

  pub issue_tokens-run :
      (user : User) (client_id scope access : String) (s : State)
      → Available dep at s
      → dep.access_token (claims_of dep at user client_id) ≡ some access
      → (res : TokenResult) × (t : State) × (issue_tokens dep at user client_id scope s
          ≡ (ok res, t))
        × (res.access_token ≡ access)
        × (res.scope ≡ scope)
  unfolding issue_tokens issue_refresh create_refresh_token ◌>>=◌
  issue_tokens-run user client_id scope access s a signed =
      elim (Bool-cases (scope_includes (codes scope) scope_offline_access)) [
        | inl offline ↦ (
          token_result dep at access scope a.raw_refresh,
          record s {
            refreshes =
                s.refreshes
                ++ refresh_row (new_refresh dep at user client_id scope)
                    (dep.hash_token a.raw_refresh)
                  ∷ [];
          },
          ground (arith, a.drawn, a.unused, a.refreshes_answer),
          refl,
          refl,
        )
        | inr online ↦ (token_result dep at access scope "", s, ground arith, refl, refl)
      ]

  -- Where the client is known and authenticates, the row of the code is usable and
  -- belongs to that client and redirect URI, the verifier fits, and the user may authorize, the
  -- exchange returns the signed access token with the scope of the code, as long as the calls
  -- outside the program answer.
  pub exchange_code_complete :
      (input : TokenInput) (s : State) (client : OauthClient) (row : CodeRow) (user : User)
      (access : String)
      → Available dep at s
      → find (client_named input.client_id) s.clients ≡ some client
      → secret_accepted dep at client input.client_secret ≡ true
      → find (code_hash (dep.hash_token input.code)) s.codes ≡ some row
      → usable_code at.now row ≡ true
      → row.client_id ≡ client.client_id
      → row.redirect_uri ≡ input.redirect_uri
      → Redeemable dep client row input.code_verifier
      → find (has_id row.user_id) s.users ≡ some user
      → can_authorize user ≡ ok tt
      → dep.access_token (claims_of dep at user client.client_id) ≡ some access
      → (res : TokenResult) × (t : State) × (exchange_code dep at input s ≡ (ok res, t))
        × (res.access_token ≡ access)
        × (res.scope ≡ row.scope)
  unfolding exchange_code
  exchange_code_complete input s client row user access a known secret found usable c r p owner may
        signed =
      let h = dep.hash_token input.code in
      let s₁ = with_used h at.now s in
      let (res, t, issued, token, scope) =
        issue_tokens-run user client.client_id row.scope access s₁
          (record {
            raw_refresh = a.raw_refresh;
            drawn = a.drawn;
            unused = a.unused;
            clients_answer = a.clients_answer;
            users_answer = a.users_answer;
            codes_answer = a.codes_answer;
            refreshes_answer = a.refreshes_answer;
          })
          signed in
      (
        res,
        t,
        bind-run _ _ s client s (authenticate_client-run _ _ s client a.clients_answer known secret)
            ∙ bind-run _ _ s (code_of row) s₁ (
                if_not_found-run invalid_grant _ s (code_of row) s₁
                  (consume-run at h at.now s row a.codes_answer found usable))
            ∙ bind-run _ _ s₁ tt s₁ (
                lift-run (check_code dep at client (code_of row) input) s₁ tt
                  (check_code-run client row input c r p))
            ∙ bind-run _ _ s₁ user s₁ (load_user-run row.user_id s₁ user a.users_answer owner may)
            ∙ issued,
        token,
        scope,
      )
