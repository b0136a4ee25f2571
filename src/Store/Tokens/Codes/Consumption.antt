-- ===== src/Store/Tokens/Codes/Consumption.antt =====
-- What consuming an authorization code does to its row.
use kde_auth.Prelude.{
  ℕ, String, ◌≡◌, ◌∙◌, true, false, some, inl, inr, Option-cases, find, update_where, arith,
}
use kde_auth.Domain.Errors.{Error, ok}
use kde_auth.Domain.Token.{AuthorizationCode}
use kde_auth.Port.{Moment, codes_consume}
use kde_auth.State.{State, CodeRow}
use kde_auth.Exec.{Exec, if_not_found, ◌>>=◌}
use kde_auth.Exec.Reads.{after}
use kde_auth.Exec.Rules.{if_not_found_ok}
use kde_auth.Store.Tokens.Codes.{
  code_hash, code_of, usable_code, use_code, consume_authorization_code,
}

abbrev pub with_used : String → ℕ → State → State
with_used h now s = record s { codes = update_where (code_hash h) (use_code now) s.codes }

module _ (at : Moment) (h : String) (now : ℕ) (s : State) where
  pub consume_ok :
      (code : AuthorizationCode) (t : State)
      → consume_authorization_code at h now s ≡ (ok code, t)
      → (row : CodeRow) × (find (code_hash h) s.codes ≡ some row)
        × (usable_code now row ≡ true)
        × (code_of row ≡ code)
        × (with_used h now s ≡ t)
  unfolding consume_authorization_code ◌>>=◌
  consume_ok code t e = elim (Option-cases (find (code_hash h) s.codes)) [
    | inl missing ↦ absurd (ground arith)
    | inr (row, found) ↦ (row, found, ground arith, ground arith, ground arith)
  ]

  pub consume-run :
      (row : CodeRow)
      → at.fails codes_consume ≡ false
      → find (code_hash h) s.codes ≡ some row
      → usable_code now row ≡ true
      → consume_authorization_code at h now s ≡ (ok (code_of row), with_used h now s)
  unfolding consume_authorization_code ◌>>=◌
  consume-run row f found usable = ground arith

-- The step of a run that consumed a code.
module _ {B C : Type 0} (at : Moment) (e : Error) (h : String) (now : ℕ) where
  pub after_consume :
      (f : AuthorizationCode → Exec B) (s : State) {b : B} {t : State}
      → (if_not_found e (consume_authorization_code at h now) >>= f) s ≡ (ok b, t)
      → ((row : CodeRow)
          → find (code_hash h) s.codes ≡ some row
          → usable_code now row ≡ true
          → f (code_of row) (with_used h now s) ≡ (ok b, t)
          → C)
      → C
  after_consume f s run k = after _ f s run λ code s' p rest.
      let (row, found, usable, same, moved) =
        consume_ok at h now s code s' (if_not_found_ok e _ s p) in
      k row found usable ((λ i. f (same i) (moved i)) ∙ rest)
