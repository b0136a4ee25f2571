-- ===== src/Service/RefreshOnce.antt =====
-- A refresh token is good for one exchange, whatever requests come between.
use kde_auth.Prelude.{
  ℕ, String, List, [], ◌∷◌, ◌++◌, ◌≡◌, ◌≢◌, sym, subst, true, some, is_some, ◌==◌, str_ne, find,
  update_where, delete_where, All, arith, inl, inr, Bool-cases,
}
use kde_auth.Prelude.Rows.{All-append}
use kde_auth.Domain.Errors.{ok}
use kde_auth.Domain.Token.{RefreshToken}
use kde_auth.Port.{Deployment, Moment}
use kde_auth.State.{State, RefreshRow}
use kde_auth.Exec.Keeps.{Keeps, keeps_rules, Keeps-write}
use kde_auth.Store.Tokens.Refreshes.{
  refresh_hash, refresh_row, revoke_refresh_row, open_refresh_of, create_refresh_token,
  consume_refresh_token, revoke_all_refresh_tokens_for_user,
}
use kde_auth.UseCase.Exchange.{TokenInput, TokenResult, new_refresh, refresh}
use kde_auth.UseCase.Exchange.Renewals.{RefreshGrant, refresh-RefreshGrant}
use kde_auth.Service.{Request, run}
use kde_auth.Service.Preserved.{Preserved}
use kde_auth.Service.Preserved.OneTable.{refreshes_only}
use kde_auth.Service.Preserved.Steps.{run-keeps}
use kde_auth.Service.SingleUse.{DrawsOther}

-- The row is revoked, if it has the hash.
abbrev pub IsRevoked : String → RefreshRow → Type 0
IsRevoked h r = refresh_hash h r ≡ true → is_some r.revoked_at ≡ true

module _ (h : String) where
  consume-IsRevoked :
      (h' : String) (now : ℕ) (rows : List RefreshRow)
      → All (IsRevoked h) rows
      → All (IsRevoked h) (update_where (refresh_hash h') (revoke_refresh_row now) rows)
  consume-IsRevoked h' now [] a = tt
  consume-IsRevoked h' now (r ∷ rows) a = (ground (arith, a.0), consume-IsRevoked h' now rows a.1)

  sign_out-IsRevoked :
      (id : String) (now : ℕ) (rows : List RefreshRow)
      → All (IsRevoked h) rows
      → All (IsRevoked h) (update_where (open_refresh_of id) (revoke_refresh_row now) rows)
  sign_out-IsRevoked id now [] a = tt
  sign_out-IsRevoked id now (r ∷ rows) a = (ground (arith, a.0), sign_out-IsRevoked id now rows a.1)

  delete-IsRevoked :
      (id : String) (rows : List RefreshRow)
      → All (IsRevoked h) rows
      → All (IsRevoked h) (delete_where (λ r. r.user_id == id) rows)
  delete-IsRevoked id [] a = tt
  delete-IsRevoked id (r ∷ rows) a = elim (Bool-cases (r.user_id == id)) [
    | inl gone ↦ rw gone (delete-IsRevoked id rows a.1)
    | inr kept ↦ rw kept (a.0, delete-IsRevoked id rows a.1)
  ]

  add-IsRevoked :
      (token : RefreshToken) (h' : String) (rows : List RefreshRow)
      → h' ≢ h
      → All (IsRevoked h) rows
      → All (IsRevoked h) (rows ++ refresh_row token h' ∷ [])
  add-IsRevoked token h' rows ne a =
      All-append (IsRevoked h) rows (refresh_row token h' ∷ []) a
        ((λ e. ground (arith, str_ne h' h ne)), tt)

  spent_rows-All :
      (now : ℕ) (rows : List RefreshRow)
      → All (IsRevoked h) (update_where (refresh_hash h) (revoke_refresh_row now) rows)
  spent_rows-All now [] = tt
  spent_rows-All now (r ∷ rows) = (λ e. ground arith, spent_rows-All now rows)

  find-IsRevoked :
      (rows : List RefreshRow) (r : RefreshRow)
      → All (IsRevoked h) rows
      → find (refresh_hash h) rows ≡ some r
      → is_some r.revoked_at ≡ true
  find-IsRevoked [] r a e = absurd (ground arith)
  find-IsRevoked (x ∷ rows) r a e = elim (Bool-cases (refresh_hash h x)) [
    | inl hit ↦ ground (arith, a.0 hit)
    | inr miss ↦ find-IsRevoked rows r a.1 (ground arith)
  ]

module _ (dep : Deployment) (h : String) where
  create-keeps :
      (at : Moment) (token : RefreshToken) (raw : String)
      → DrawsOther dep h at
      → at.random ≡ some raw
      → Keeps
          (λ s. All (IsRevoked h) s.refreshes)
          (create_refresh_token at token (dep.hash_token raw))
  unfolding create_refresh_token
  create-keeps at token raw other drawn =
      let ne = other raw drawn in search (keeps_rules, Keeps-write, add-IsRevoked, ne) depth 8

  consume-keeps :
      (at : Moment) (h' : String) (now : ℕ)
      → Keeps (λ s. All (IsRevoked h) s.refreshes) (consume_refresh_token at h' now)
  unfolding consume_refresh_token
  consume-keeps at h' now = search (keeps_rules, Keeps-write, consume-IsRevoked) depth 8

  sign_out-keeps :
      (at : Moment) (id : String) (now : ℕ)
      → Keeps (λ s. All (IsRevoked h) s.refreshes) (revoke_all_refresh_tokens_for_user at id now)
  unfolding revoke_all_refresh_tokens_for_user
  sign_out-keeps at id now = search (keeps_rules, Keeps-write, sign_out-IsRevoked) depth 8

  IsRevoked-Preserved :
      (at : Moment) → DrawsOther dep h at → Preserved dep at (λ s. All (IsRevoked h) s.refreshes)
  IsRevoked-Preserved at other =
      refreshes_only dep at (All (IsRevoked h))
        (λ token raw drawn. create-keeps at token raw other drawn) (consume-keeps at)
        (delete-IsRevoked h) (sign_out-keeps at)

  history-Preserved :
      (history : List (Moment × Request))
      → All (λ c. DrawsOther dep h c.0) history
      → All (λ c. Preserved dep c.0 (λ s. All (IsRevoked h) s.refreshes)) history
  history-Preserved [] fresh = tt
  history-Preserved ((at, r) ∷ rest) fresh =
      (IsRevoked-Preserved at fresh.0, history-Preserved rest fresh.1)

-- After the exchange, every row of the token's hash is revoked.
refresh-IsRevoked :
    (dep : Deployment) (at : Moment) (input : TokenInput) (s s' : State) (res : TokenResult)
    → DrawsOther dep (dep.hash_token input.refresh_token) at
    → RefreshGrant dep at input s res s'
    → All (IsRevoked (dep.hash_token input.refresh_token)) s'.refreshes
refresh-IsRevoked dep at input s s' res other g =
    let h = dep.hash_token input.refresh_token in
    elim g.rotated [
      | inl (_, _, same) ↦
          subst (All (IsRevoked h)) (sym same) (spent_rows-All h at.now s.refreshes)
      | inr (_, drawn, same) ↦ subst (All (IsRevoked h)) (sym same) (
          add-IsRevoked h (new_refresh dep at g.user g.client.client_id g.row.scope)
            (dep.hash_token res.refresh_token) _ (other res.refresh_token drawn)
            (spent_rows-All h at.now s.refreshes))
    ]

-- After a refresh token was exchanged, no later exchange of it succeeds, whatever requests were
-- served in between, as long as neither that exchange nor one of the requests drew a random token
-- with the hash of the refresh token.
pub refresh-once :
    (dep : Deployment) (ttl : ℕ) (at later : Moment) (input again : TokenInput) (s s' t' : State)
    (res res' : TokenResult) (history : List (Moment × Request))
    → refresh dep at input s ≡ (ok res, s')
    → DrawsOther dep (dep.hash_token input.refresh_token) at
    → All (λ c. DrawsOther dep (dep.hash_token input.refresh_token) c.0) history
    → again.refresh_token ≡ input.refresh_token
    → refresh dep later again (run dep ttl history s') ≢ (ok res', t')
refresh-once dep ttl at later input again s s' t' res res' history first other fresh same second =
    let h = dep.hash_token input.refresh_token in
    let g = refresh-RefreshGrant dep at input s res s' first in
    let g' = refresh-RefreshGrant dep later again (run dep ttl history s') res' t' second in
    let spent =
      run-keeps (λ s. All (IsRevoked h) s.refreshes) dep ttl history s'
        (history-Preserved dep h history fresh) (refresh-IsRevoked dep at input s s' res other g) in
    let found =
      subst
        (λ (c : String).
          find (refresh_hash (dep.hash_token c)) (run dep ttl history s').refreshes ≡ some g'.row)
        same g'.row_known in
    let revoked = find-IsRevoked h (run dep ttl history s').refreshes g'.row spent found in
    ground (arith, revoked, g'.usable)
