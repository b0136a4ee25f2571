-- ===== src/Store/Tokens/Refreshes/Rotation.antt =====
-- What consuming an refresh token does to its row.
use kde_auth.Prelude.{
  ℕ, String, ◌≡◌, ◌∙◌, true, false, some, inl, inr, Option-cases, find, update_where, arith,
}
use kde_auth.Domain.Errors.{Error, ok}
use kde_auth.Domain.Token.{RefreshToken}
use kde_auth.Port.{Moment, refresh_consume}
use kde_auth.State.{State, RefreshRow}
use kde_auth.Exec.{Exec, if_not_found, ◌>>=◌}
use kde_auth.Exec.Reads.{after}
use kde_auth.Exec.Rules.{if_not_found_ok}
use kde_auth.Store.Tokens.Refreshes.{
  refresh_hash, refresh_of, usable_refresh, revoke_refresh_row, consume_refresh_token,
}

abbrev pub with_revoked : String → ℕ → State → State
with_revoked h now s = record s {
  refreshes = update_where (refresh_hash h) (revoke_refresh_row now) s.refreshes;
}

module _ (at : Moment) (h : String) (now : ℕ) (s : State) where
  pub consume_refresh_ok :
      (token : RefreshToken) (t : State)
      → consume_refresh_token at h now s ≡ (ok token, t)
      → (row : RefreshRow) × (find (refresh_hash h) s.refreshes ≡ some row)
        × (usable_refresh now row ≡ true)
        × (refresh_of row ≡ token)
        × (with_revoked h now s ≡ t)
  unfolding consume_refresh_token ◌>>=◌
  consume_refresh_ok token t e = elim (Option-cases (find (refresh_hash h) s.refreshes)) [
    | inl missing ↦ absurd (ground arith)
    | inr (row, found) ↦ (row, found, ground arith, ground arith, ground arith)
  ]

  pub consume_refresh-run :
      (row : RefreshRow)
      → at.fails refresh_consume ≡ false
      → find (refresh_hash h) s.refreshes ≡ some row
      → usable_refresh now row ≡ true
      → consume_refresh_token at h now s ≡ (ok (refresh_of row), with_revoked h now s)
  unfolding consume_refresh_token ◌>>=◌
  consume_refresh-run row f found usable = ground arith

-- The step of a run that consumed a token.
module _ {B C : Type 0} (at : Moment) (e : Error) (h : String) (now : ℕ) where
  pub after_consume_refresh :
      (f : RefreshToken → Exec B) (s : State) {b : B} {t : State}
      → (if_not_found e (consume_refresh_token at h now) >>= f) s ≡ (ok b, t)
      → ((row : RefreshRow)
          → find (refresh_hash h) s.refreshes ≡ some row
          → usable_refresh now row ≡ true
          → f (refresh_of row) (with_revoked h now s) ≡ (ok b, t)
          → C)
      → C
  after_consume_refresh f s run k = after _ f s run λ token s' p rest.
      let (row, found, usable, same, moved) =
        consume_refresh_ok at h now s token s' (if_not_found_ok e _ s p) in
      k row found usable ((λ i. f (same i) (moved i)) ∙ rest)
