-- ===== src/Service/SingleUse.antt =====
-- Authorization codes and refresh tokens are good for one exchange, whatever requests come between.
use kde_auth.Prelude.{
  ℕ, String, List, [], ◌∷◌, ◌++◌, ◌≡◌, ◌≢◌, sym, subst, true, some, is_some, ◌==◌, str_ne, find,
  update_where, delete_where, All, arith, inl, inr, Bool-cases,
}
use kde_auth.Prelude.Rows.{All-append}
use kde_auth.Domain.Errors.{ok}
use kde_auth.Domain.Token.{AuthorizationCode}
use kde_auth.Port.{Deployment, Moment}
use kde_auth.State.{State, CodeRow}
use kde_auth.Exec.Keeps.{Keeps, keeps_rules, Keeps-write}
use kde_auth.Store.Tokens.Codes.{
  code_hash, code_row, use_code, create_authorization_code, consume_authorization_code,
}
use kde_auth.UseCase.Exchange.{TokenInput, TokenResult, exchange_code}
use kde_auth.UseCase.Exchange.Grants.{exchange_code-CodeGrant}
use kde_auth.Service.{Request, run}
use kde_auth.Service.Preserved.{Preserved}
use kde_auth.Service.Preserved.OneTable.{codes_only}
use kde_auth.Service.Preserved.Steps.{run-keeps}

-- No token that is drawn at the moment has this hash: SHA-256 does not collide, and 32 random
-- bytes do not repeat.
abbrev pub DrawsOther : Deployment → String → Moment → Type 0
DrawsOther dep h at = (raw : String) → at.random ≡ some raw → dep.hash_token raw ≢ h

-- Every row of the hash is used.
abbrev pub IsSpent : String → CodeRow → Type 0
IsSpent h r = code_hash h r ≡ true → is_some r.used_at ≡ true

module _ (h : String) where
  use-IsSpent :
      (h' : String) (now : ℕ) (rows : List CodeRow)
      → All (IsSpent h) rows
      → All (IsSpent h) (update_where (code_hash h') (use_code now) rows)
  use-IsSpent h' now [] a = tt
  use-IsSpent h' now (r ∷ rows) a = (ground (arith, a.0), use-IsSpent h' now rows a.1)

  delete-IsSpent :
      (id : String) (rows : List CodeRow)
      → All (IsSpent h) rows
      → All (IsSpent h) (delete_where (λ r. r.user_id == id) rows)
  delete-IsSpent id [] a = tt
  delete-IsSpent id (r ∷ rows) a = elim (Bool-cases (r.user_id == id)) [
    | inl gone ↦ rw gone (delete-IsSpent id rows a.1)
    | inr kept ↦ rw kept (a.0, delete-IsSpent id rows a.1)
  ]

  add-IsSpent :
      (code : AuthorizationCode) (h' : String) (rows : List CodeRow)
      → h' ≢ h
      → All (IsSpent h) rows
      → All (IsSpent h) (rows ++ code_row code h' ∷ [])
  add-IsSpent code h' rows ne a =
      All-append (IsSpent h) rows (code_row code h' ∷ []) a
        ((λ e. ground (arith, str_ne h' h ne)), tt)

  used_rows-All :
      (now : ℕ) (rows : List CodeRow)
      → All (IsSpent h) (update_where (code_hash h) (use_code now) rows)
  used_rows-All now [] = tt
  used_rows-All now (r ∷ rows) = (λ e. ground arith, used_rows-All now rows)

  find-IsSpent :
      (rows : List CodeRow) (r : CodeRow)
      → All (IsSpent h) rows
      → find (code_hash h) rows ≡ some r
      → is_some r.used_at ≡ true
  find-IsSpent [] r a e = absurd (ground arith)
  find-IsSpent (x ∷ rows) r a e = elim (Bool-cases (code_hash h x)) [
    | inl hit ↦ ground (arith, a.0 hit)
    | inr miss ↦ find-IsSpent rows r a.1 (ground arith)
  ]

module _ (dep : Deployment) (h : String) where
  create-IsSpent :
      (at : Moment) (code : AuthorizationCode) (raw : String)
      → DrawsOther dep h at
      → at.random ≡ some raw
      → Keeps
          (λ s. All (IsSpent h) s.codes)
          (create_authorization_code at code (dep.hash_token raw))
  unfolding create_authorization_code
  create-IsSpent at code raw other drawn =
      let ne = other raw drawn in search (keeps_rules, Keeps-write, add-IsSpent, ne) depth 8

  consume-IsSpent :
      (at : Moment) (h' : String) (now : ℕ)
      → Keeps (λ s. All (IsSpent h) s.codes) (consume_authorization_code at h' now)
  unfolding consume_authorization_code
  consume-IsSpent at h' now = search (keeps_rules, Keeps-write, use-IsSpent) depth 8

  IsSpent-Preserved :
      (at : Moment) → DrawsOther dep h at → Preserved dep at (λ s. All (IsSpent h) s.codes)
  IsSpent-Preserved at other =
      codes_only dep at (All (IsSpent h)) (λ code raw drawn. create-IsSpent at code raw other drawn)
        (consume-IsSpent at) (delete-IsSpent h)

  preserved :
      (history : List (Moment × Request))
      → All (λ c. DrawsOther dep h c.0) history
      → All (λ c. Preserved dep c.0 (λ s. All (IsSpent h) s.codes)) history
  preserved [] fresh = tt
  preserved ((at, r) ∷ rest) fresh = (IsSpent-Preserved at fresh.0, preserved rest fresh.1)

  run-IsSpent :
      (ttl : ℕ) (history : List (Moment × Request)) (s : State)
      → All (λ c. DrawsOther dep h c.0) history
      → All (IsSpent h) s.codes
      → All (IsSpent h) (run dep ttl history s).codes
  run-IsSpent ttl history s fresh a =
      run-keeps (λ s. All (IsSpent h) s.codes) dep ttl history s (preserved history fresh) a

-- After a code was exchanged, no later exchange of it succeeds, whatever requests were served in
-- between, as long as no new random token has the hash of the code.
pub exchange_code-once :
    (dep : Deployment) (ttl : ℕ) (at later : Moment) (input again : TokenInput) (s s' t' : State)
    (res res' : TokenResult) (history : List (Moment × Request))
    → exchange_code dep at input s ≡ (ok res, s')
    → All (λ c. DrawsOther dep (dep.hash_token input.code) c.0) history
    → again.code ≡ input.code
    → exchange_code dep later again (run dep ttl history s') ≢ (ok res', t')
exchange_code-once dep ttl at later input again s s' t' res res' history first fresh same second =
    let h = dep.hash_token input.code in
    let g = exchange_code-CodeGrant dep at input s res s' first in
    let g' = exchange_code-CodeGrant dep later again (run dep ttl history s') res' t' second in
    let spent =
      run-IsSpent dep h ttl history s' fresh
        (subst (All (IsSpent h)) (sym g.spent) (used_rows-All h at.now s.codes)) in
    let found =
      subst
        (λ (c : String).
          find (code_hash (dep.hash_token c)) (run dep ttl history s').codes ≡ some g'.row)
        same g'.row_known in
    let used = find-IsSpent h (run dep ttl history s').codes g'.row spent found in
    ground (arith, used, g'.usable)
