-- ===== src/UseCase/Exchange/RefreshCompleteness.antt =====
-- The exchange of a refresh token succeeds where its checks hold and no call outside the program
-- fails.
use kde_auth.Prelude.{
  String, List, [], ◌∷◌, ◌≡◌, refl, ◌∙◌, true, false, some, ◌==◌, find, exists, update_where,
  eq_iff, arith, ℕ,
}
use kde_auth.Domain.Errors.{ok, invalid_grant}
use kde_auth.Domain.Client.{OauthClient}
use kde_auth.Domain.User.{User, can_authorize}
use kde_auth.Port.{Deployment, Moment, refresh_consume}
use kde_auth.State.{State, RefreshRow}
use kde_auth.Exec.Rules.{bind-run, guard-run, if_not_found-run}
use kde_auth.Store.Clients.{client_named}
use kde_auth.Store.Users.{has_id}
use kde_auth.Store.Tokens.Refreshes.{refresh_hash, refresh_of, usable_refresh, revoke_refresh_row}
use kde_auth.Store.Tokens.Refreshes.Rotation.{with_revoked, consume_refresh-run}
use kde_auth.UseCase.Exchange.{TokenInput, TokenResult, secret_accepted, claims_of, refresh}
use kde_auth.UseCase.Exchange.Completeness.{
  Available, authenticate_client-run, load_user-run, issue_tokens-run,
}

exists-revoked :
    (h h' : String) (now : ℕ) (rows : List RefreshRow)
    → exists (refresh_hash h) rows ≡ false
    → exists (refresh_hash h) (update_where (refresh_hash h') (revoke_refresh_row now) rows) ≡ false
exists-revoked h h' now [] e = refl
exists-revoked h h' now (r ∷ rows) e = ground (arith, exists-revoked h h' now rows)

module _ (dep : Deployment) (at : Moment) where
  still-Available :
      (h : String) (s : State) → Available dep at s → Available dep at (with_revoked h at.now s)
  still-Available h s a = record {
    raw_refresh = a.raw_refresh;
    drawn = a.drawn;
    unused = exists-revoked (dep.hash_token a.raw_refresh) h at.now s.refreshes a.unused;
    clients_answer = a.clients_answer;
    users_answer = a.users_answer;
    codes_answer = a.codes_answer;
    refreshes_answer = a.refreshes_answer;
  }

  -- Where the client is known and authenticates, the row of the refresh token is usable and was
  -- issued to that client, its user may authorize, the access token can be signed and every call
  -- outside the program answers, the exchange gives a token response with that access token and
  -- the scope of the refresh token.
  pub refresh_complete :
      (input : TokenInput) (s : State) (client : OauthClient) (row : RefreshRow) (user : User)
      (access : String)
      → Available dep at s
      → at.fails refresh_consume ≡ false
      → find (client_named input.client_id) s.clients ≡ some client
      → secret_accepted dep at client input.client_secret ≡ true
      → find (refresh_hash (dep.hash_token input.refresh_token)) s.refreshes ≡ some row
      → usable_refresh at.now row ≡ true
      → row.client_id ≡ client.client_id
      → find (has_id row.user_id) s.users ≡ some user
      → can_authorize user ≡ ok tt
      → dep.access_token (claims_of dep at user client.client_id) ≡ some access
      → (res : TokenResult) × (t : State) × (refresh dep at input s ≡ (ok res, t))
        × (res.access_token ≡ access)
        × (res.scope ≡ row.scope)
  unfolding refresh
  refresh_complete input s client row user access a f known secret found usable c owner may signed =
      let h = dep.hash_token input.refresh_token in
      let s₁ = with_revoked h at.now s in
      let (res, t, issued, token, scope) =
        issue_tokens-run dep at user client.client_id row.scope access s₁ (still-Available h s a)
          signed in
      (
        res,
        t,
        bind-run _ _ s client s
              (authenticate_client-run dep at _ _ s client a.clients_answer known secret)
            ∙ bind-run _ _ s (refresh_of row) s₁ (
                if_not_found-run invalid_grant _ s (refresh_of row) s₁
                  (consume_refresh-run at h at.now s row f found usable))
            ∙ guard-run (row.client_id == client.client_id) invalid_grant _ s₁
                ((eq_iff row.client_id client.client_id).1 c)
            ∙ bind-run _ _ s₁ user s₁
                (load_user-run dep at row.user_id s₁ user a.users_answer owner may)
            ∙ issued,
        token,
        scope,
      )
