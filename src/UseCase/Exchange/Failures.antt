-- ===== src/UseCase/Exchange/Failures.antt =====
-- A code that is shown with the wrong data is used up.
use kde_auth.Prelude.{◌≡◌, ◌≢◌, ◌∙◌, ◌<◌, len, true, false, some, find, str_ne, eq_iff, arith}
use kde_auth.Domain.Pkce.{verify_pkce_s256}
use kde_auth.Store.Tokens.{coalesce}
use kde_auth.Domain.Errors.{Error, err, invalid_grant}
use kde_auth.Domain.Client.{OauthClient, is_public}
use kde_auth.Port.{Deployment, Moment, clients_by_id, codes_consume}
use kde_auth.State.{State, CodeRow}
use kde_auth.Exec.{lift}
use kde_auth.Exec.Rules.{bind-run, bind-fail, if_not_found-run}
use kde_auth.Store.Clients.{client_named}
use kde_auth.Store.Tokens.Codes.{code_hash, code_of, usable_code}
use kde_auth.Store.Tokens.Codes.Consumption.{consume-run, with_used}
use kde_auth.UseCase.Exchange.{TokenInput, secret_accepted, check_code, exchange_code}
use kde_auth.UseCase.Exchange.Completeness.{authenticate_client-run}

-- What is wrong about a code that is shown: it is another client's, or was asked for with another
-- redirect URI; the verifier of its challenge is not the one shown, or is too short or too long; the
-- method of its challenge is not S256; or it has no challenge, and the client is public.
pub data Mismatch (dep : Deployment) (client : OauthClient) (row : CodeRow) (input : TokenInput)
    : Type 0 where
  other_client : row.client_id ≢ client.client_id → Mismatch dep client row input
  other_redirect : row.redirect_uri ≢ input.redirect_uri → Mismatch dep client row input
  other_verifier :
      coalesce row.code_challenge ≢ ""
      → dep.s256 input.code_verifier ≢ coalesce row.code_challenge
      → Mismatch dep client row input
  short_verifier :
      coalesce row.code_challenge ≢ ""
      → len input.code_verifier < 43
      → Mismatch dep client row input
  long_verifier :
      coalesce row.code_challenge ≢ ""
      → 128 < len input.code_verifier
      → Mismatch dep client row input
  other_method :
      coalesce row.code_challenge ≢ ""
      → coalesce row.code_challenge_method ≢ "S256"
      → Mismatch dep client row input
  unproven :
      coalesce row.code_challenge ≡ "" → is_public client ≡ true → Mismatch dep client row input

module _ (dep : Deployment) (at : Moment) where
  -- Nothing gets past the check, and its error is always the same.
  Mismatch-invalid_grant :
      (client : OauthClient) (row : CodeRow) (input : TokenInput)
      → Mismatch dep client row input
      → check_code dep at client (code_of row) input ≡ err invalid_grant
  unfolding check_code verify_pkce_s256
  Mismatch-invalid_grant client row input (other_client ne) =
      ground (arith, str_ne row.client_id client.client_id ne)
  Mismatch-invalid_grant client row input (other_redirect ne) =
      ground (arith, str_ne row.redirect_uri input.redirect_uri ne)
  Mismatch-invalid_grant client row input (other_verifier given ne) = ground (
    arith,
    str_ne (coalesce row.code_challenge) "" given,
    str_ne (dep.s256 input.code_verifier) (coalesce row.code_challenge) ne,
  )
  Mismatch-invalid_grant client row input (short_verifier given lt) =
      ground (arith, str_ne (coalesce row.code_challenge) "" given, lt)
  Mismatch-invalid_grant client row input (long_verifier given lt) =
      ground (arith, str_ne (coalesce row.code_challenge) "" given, lt)
  Mismatch-invalid_grant client row input (other_method given ne) = ground (
    arith,
    str_ne (coalesce row.code_challenge) "" given,
    str_ne (coalesce row.code_challenge_method) "S256" ne,
  )
  Mismatch-invalid_grant client row input (unproven absent open_client) =
      ground (arith, (eq_iff (coalesce row.code_challenge) "").1 absent, open_client)

  lift-fail :
      (client : OauthClient) (row : CodeRow) (input : TokenInput) (s : State) (e : Error)
      → check_code dep at client (code_of row) input ≡ err e
      → lift (check_code dep at client (code_of row) input) s ≡ (err e, s)
  unfolding lift
  lift-fail client row input s e h = λ i. (h i, s)

  -- A stored code that is usable and is shown by a known client that has authenticated, but with
  -- another client or redirect URI than it was issued for, without the verifier of its challenge, or
  -- with a challenge of another method, or without a challenge by a public client, is used up, and
  -- the exchange fails with invalid_grant; the look-up of the client and the call that consumes the
  -- code must answer.
  pub exchange_code-with_used :
      (input : TokenInput) (s : State) (client : OauthClient) (row : CodeRow)
      → at.fails clients_by_id ≡ false
      → at.fails codes_consume ≡ false
      → find (client_named input.client_id) s.clients ≡ some client
      → secret_accepted dep at client input.client_secret ≡ true
      → find (code_hash (dep.hash_token input.code)) s.codes ≡ some row
      → usable_code at.now row ≡ true
      → Mismatch dep client row input
      → exchange_code dep at input s
        ≡ (err invalid_grant, with_used (dep.hash_token input.code) at.now s)
  unfolding exchange_code
  exchange_code-with_used input s client row f₁ f₂ known secret found usable wrong =
      let h = dep.hash_token input.code in
      let s₁ = with_used h at.now s in
      let checked = Mismatch-invalid_grant client row input wrong in
      bind-run _ _ s client s (authenticate_client-run dep at _ _ s client f₁ known secret)
      ∙ bind-run _ _ s (code_of row) s₁ (
          if_not_found-run invalid_grant _ s (code_of row) s₁
            (consume-run at h at.now s row f₂ found usable))
      ∙ bind-fail _ _ s₁ invalid_grant s₁ (lift-fail client row input s₁ invalid_grant checked)
