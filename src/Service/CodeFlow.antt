-- ===== src/Service/CodeFlow.antt =====
-- The authorization code flow from /authorize to /token.
use kde_auth.Prelude.{
  ◌+◌, ◌≤◌, ◌<◌, String, len, List, [], ◌∷◌, ◌++◌, ◌≡◌, ◌≢◌, refl, sym, ◌∙◌, subst, ◌⊎◌, inl, inr,
  true, false, some, ◌==◌, Bool-cases, str_eq_refl, find, exists, eq_iff, lt→ltb, arith,
}
use kde_auth.Prelude.Rows.{find-append, find_of_not_exists, find-holds}
use kde_auth.Domain.Errors.{ok}
use kde_auth.Domain.Client.{OauthClient}
use kde_auth.Port.{Deployment, Moment, AccessClaims}
use kde_auth.State.{State, CodeRow}
use kde_auth.Domain.User.{User}
use kde_auth.Store.Users.{has_id}
use kde_auth.Store.Clients.{client_named}
use kde_auth.Store.Tokens.{null_if_empty, coalesce}
use kde_auth.Store.Tokens.Codes.{code_hash, code_row}
use kde_auth.UseCase.Authorize.{AuthorizeInput, AuthorizeResult, auth_code_ttl, new_code, authorize}
use kde_auth.UseCase.Authorize.Grants.{CodeIssued, authorize-CodeIssued}
use kde_auth.UseCase.Exchange.{TokenInput, TokenResult, secret_accepted, claims_of, exchange_code}
use kde_auth.UseCase.Exchange.Completeness.{Available, Redeemable, exchange_code_complete}

pub coalesce-null_if_empty : (s : String) → coalesce (null_if_empty s) ≡ s
coalesce-null_if_empty s = elim (Bool-cases (s == "")) [
  | inl e ↦ rw e (sym ((eq_iff s "").0 e))
  | inr e ↦ rw e
]

find-stored :
    (h : String) (row : CodeRow) (rows : List CodeRow)
    → exists (code_hash h) rows ≡ false
    → code_hash h row ≡ true
    → find (code_hash h) (rows ++ row ∷ []) ≡ some row
find-stored h row rows fresh hit = ground (
  arith,
  find-append (code_hash h) rows (row ∷ []),
  find_of_not_exists (code_hash h) rows fresh,
  hit,
)

-- The client that was authorized redeems its code: it authenticates, sends the same redirect URI,
-- and the verifier whose digest is the challenge that it had sent.
pub record Redeems (dep : Deployment) (at later : Moment) (input : AuthorizeInput)
    (tok : TokenInput) (s : State) : Type 0 where
  pub code_sent : at.random ≡ some tok.code
  pub same_client : tok.client_id ≡ input.client_id
  pub same_redirect : tok.redirect_uri ≡ input.redirect_uri
  pub authenticates :
      (client : OauthClient)
      → find (client_named input.client_id) s.clients ≡ some client
      → secret_accepted dep later client tok.client_secret ≡ true
  pub in_time : later.now < at.now + auth_code_ttl
  pub challenged : input.code_challenge ≢ ""
  pub digest : dep.s256 tok.code_verifier ≡ input.code_challenge
  pub least : 43 ≤ len tok.code_verifier
  pub most : len tok.code_verifier ≤ 128

stored_method-S256 :
    (challenge m : String)
    → challenge ≢ ""
    → ((challenge ≡ "") × (m ≡ "")) ⊎ ((m ≡ "S256") × (43 ≤ len challenge) × (len challenge ≤ 128))
    → m ≡ "S256"
stored_method-S256 challenge m sent (inl (none_sent, _)) = absurd (sent none_sent)
stored_method-S256 challenge m sent (inr (method, _, _)) = method

module _ (dep : Deployment) (at later : Moment) (input : AuthorizeInput) (tok : TokenInput)
    {s s' : State} {res : AuthorizeResult} where
  abbrev issued_row : CodeIssued dep at input s res s' → CodeRow
  issued_row g =
      code_row (new_code dep at input g.client g.stored_method g.user) (dep.hash_token g.raw_code)

  raw_code-sent :
      (g : CodeIssued dep at input s res s')
      → Redeems dep at later input tok s
      → g.raw_code ≡ tok.code
  raw_code-sent g r = cc (g.drawn, r.code_sent)

  issued_row-found :
      (g : CodeIssued dep at input s res s')
      → Redeems dep at later input tok s
      → find (code_hash (dep.hash_token tok.code)) s'.codes ≡ some (issued_row g)
  issued_row-found g r =
      subst (λ (c : String). find (code_hash (dep.hash_token c)) s'.codes ≡ some (issued_row g))
        (raw_code-sent g r)
        (subst
          (λ (rows : List CodeRow).
            find (code_hash (dep.hash_token g.raw_code)) rows ≡ some (issued_row g))
          (sym g.stored)
          (find-stored (dep.hash_token g.raw_code) (issued_row g) s.codes g.fresh
            (str_eq_refl (dep.hash_token g.raw_code))))

  issued_row-Redeemable :
      (g : CodeIssued dep at input s res s')
      → Redeems dep at later input tok s
      → Redeemable dep g.client (issued_row g) tok.code_verifier
  issued_row-Redeemable g r =
      let stored = coalesce-null_if_empty input.code_challenge in
      let method =
        stored_method-S256 input.code_challenge g.stored_method r.challenged g.challenge_stored in
      inl (
        (λ e. r.challenged (sym stored ∙ e)),
        coalesce-null_if_empty g.stored_method ∙ method,
        r.digest ∙ sym stored,
        r.least,
        r.most,
      )

  issued_user-found :
      (g : CodeIssued dep at input s res s') → find (has_id g.user.id) s'.users ≡ some g.user
  issued_user-found g =
      let owner =
        (eq_iff g.user.id g.session.session.user_id).0
          (find-holds (has_id g.session.session.user_id) s.users g.user_known) in
      subst (λ (us : List User). find (has_id g.user.id) us ≡ some g.user) (sym g.same_users)
        (subst (λ (id : String). find (has_id id) s.users ≡ some g.user) (sym owner) g.user_known)

  issued_client-found :
      (g : CodeIssued dep at input s res s')
      → Redeems dep at later input tok s
      → find (client_named tok.client_id) s'.clients ≡ some g.client
  issued_client-found g r =
      subst (λ (cs : List OauthClient). find (client_named tok.client_id) cs ≡ some g.client)
        (sym g.same_clients)
        (subst (λ (c : String). find (client_named c) s.clients ≡ some g.client) (sym r.same_client)
          g.client_known)

-- A client that was given a code with PKCE and redeems it in the state that the authorization
-- left, within five minutes and with the right verifier, gets a token response with the scope that
-- it had asked for, as long as the calls outside the program answer and tokens can be signed.
pub exchange_code-authorize :
    (dep : Deployment) (sign : AccessClaims → String) (at later : Moment) (input : AuthorizeInput)
    (tok : TokenInput) (s s' : State) (res : AuthorizeResult)
    → ((c : AccessClaims) → dep.access_token c ≡ some (sign c))
    → authorize dep at input s ≡ (ok res, s')
    → Redeems dep at later input tok s
    → Available dep later s'
    → (out : TokenResult) × (t : State) × (exchange_code dep later tok s' ≡ (ok out, t))
      × (out.scope ≡ input.scope)
exchange_code-authorize dep sign at later input tok s s' res signs run r a =
    let g = authorize-CodeIssued dep at input s res s' run in
    let row = issued_row dep at later input tok g in
    let (out, t, exchanged, _, scope) =
      exchange_code_complete dep later tok s' g.client row g.user
        (sign (claims_of dep later g.user g.client.client_id)) a
        (issued_client-found dep at later input tok g r) (r.authenticates g.client g.client_known)
        (issued_row-found dep at later input tok g r)
        (lt→ltb later.now (at.now + auth_code_ttl) r.in_time) refl (sym r.same_redirect)
        (issued_row-Redeemable dep at later input tok g r)
        (issued_user-found dep at later input tok g) g.allowed
        (signs (claims_of dep later g.user g.client.client_id)) in
    (out, t, exchanged, scope)
