-- ===== src/UseCase/Passwords/Revocation.antt =====
-- A new password ends what the user was signed in to.
use kde_auth.Prelude.{
  ℕ, String, ◌≡◌, true, not, some, ◌==◌, Option-cases, inl, inr, find, arith, sym, subst, eq_iff,
}
use kde_auth.Prelude.Rows.{find-holds}
use kde_auth.Domain.Errors.{ok, invalid_token, unauthorized}
use kde_auth.Domain.User.{User, can_authorize}
use kde_auth.Port.{Deployment, Moment, users_by_id}
use kde_auth.State.{State, ResetRow}
use kde_auth.Exec.{if_not_found, ◌>>=◌}
use kde_auth.Store.Tokens.Resets.{reset_hash, usable_reset, consume_password_reset_token}
use kde_auth.UseCase.AdminUsers.{revoke_access}
use kde_auth.UseCase.Passwords.{
  ResetInput, ChangeInput, set_password, reset_password, change_password, check_change,
}
use kde_auth.Exec.Reads.{
  Reads, reads_rules, Reads-lift, Reads-or_internal, Reads-or_error, after, after_read, after_guard,
  lift_value, or_error_value, if_not_found_value, query_value,
}
use kde_auth.Exec.Rules.{if_not_found_ok}
use kde_auth.Domain.Token.{PasswordResetToken}
use kde_auth.Store.Users
use kde_auth.Store.Users.{has_id}
use kde_auth.UseCase.SignedOut.{SignedOut, revoked-SignedOut, revoke_access_ok}

consume_reset_ok :
    (at : Moment) (h : String) (now : ℕ) (s : State) (token : PasswordResetToken) (t : State)
    → consume_password_reset_token at h now s ≡ (ok token, t)
    → (row : ResetRow) × (find (reset_hash h) s.resets ≡ some row)
      × (usable_reset now row ≡ true)
      × (row.user_id ≡ token.user_id)
unfolding consume_password_reset_token ◌>>=◌
consume_reset_ok at h now s token t e = elim (Option-cases (find (reset_hash h) s.resets)) [
  | inl missing ↦ absurd (ground arith)
  | inr (row, found) ↦ (row, found, ground arith, ground arith)
]

module _ (dep : Deployment) (at : Moment) where
  check_change-Reads : (input : ChangeInput) → Reads (check_change dep at input)
  unfolding check_change
  check_change-Reads input = search (reads_rules) depth 12

  by_id-Reads : (id : String) → Reads (if_not_found unauthorized (Users.by_id dep at id))
  unfolding Users.by_id
  by_id-Reads id = search reads_rules

  by_id_ok :
      (id : String) (s : State) (user : User)
      → (if_not_found unauthorized (Users.by_id dep at id) s).0 ≡ ok user
      → find (has_id id) s.users ≡ some user
  unfolding Users.by_id
  by_id_ok id s user h =
      query_value at users_by_id _ s user (if_not_found_value unauthorized _ s user h)

  set_password_ok :
      (id hash : String) (s s' : State)
      → set_password dep at id hash s ≡ (ok tt, s')
      → SignedOut id s'
  unfolding set_password revoke_access
  set_password_ok id hash s s' h = after _ _ s h λ _ t _ h₁.
      subst (SignedOut id) (revoke_access_ok dep at id t s' h₁) (revoked-SignedOut id at.now t)

  -- A successful reset of a password was made with a stored token that was neither used nor
  -- expired, and leaves the owner of the token no session and no refresh token that is not revoked.
  pub reset_password-SignedOut :
      (input : ResetInput) (s s' : State)
      → reset_password dep at input s ≡ (ok tt, s')
      → (row : ResetRow) × (find (reset_hash (dep.hash_token input.token)) s.resets ≡ some row)
        × (usable_reset at.now row ≡ true)
        × SignedOut row.user_id s'
  unfolding reset_password
  reset_password-SignedOut input s s' h =
      after_guard (not (input.token == "")) invalid_token _ _ h λ _ h₁.
        after_guard (input.password == input.password_confirm) _ _ _ h₁ λ _ h₂.
          after_read _ _ s (Reads-lift _) h₂ λ password _ h₃.
            after_read _ _ s (Reads-or_internal _) h₃ λ hash _ h₄. after _ _ s h₄ λ token t c h₅.
              let (row, known, usable, owner) =
                consume_reset_ok at _ at.now s token t (if_not_found_ok invalid_token _ s c) in
              (
                row,
                known,
                usable,
                subst (λ (id : String). SignedOut id s') (sym owner)
                    (set_password_ok token.user_id hash t s' h₅),
              )

  -- A successful change of a password was made for a user who may authorize and with the user's
  -- current password, and leaves the user no session and no refresh token that is not revoked.
  pub change_password-SignedOut :
      (input : ChangeInput) (s s' : State)
      → change_password dep at input s ≡ (ok tt, s')
      → (user : User) × (find (has_id input.user_id) s.users ≡ some user)
        × (can_authorize user ≡ ok tt)
        × (dep.verify_password user.password_hash input.current_password ≡ true)
        × SignedOut input.user_id s'
  unfolding change_password
  change_password-SignedOut input s s' h =
      after_read _ _ s (check_change-Reads input) h λ password _ h₁.
        after_read _ _ s (by_id-Reads input.user_id) h₁ λ user u h₂.
          after_read _ _ s (Reads-or_error _ _ (Reads-lift _)) h₂ λ _ may h₃.
            after_guard (dep.verify_password user.password_hash input.current_password) _ _ _ h₃
              λ verified h₄. after_read _ _ s (Reads-or_internal _) h₄ λ hash _ h₅.
                let known = by_id_ok input.user_id s user u in
                (
                  user,
                  known,
                  lift_value _ s tt (or_error_value _ _ s tt may),
                  verified,
                  subst (λ (id : String). SignedOut id s')
                      ((eq_iff user.id input.user_id).0
                        (find-holds (has_id input.user_id) s.users known))
                      (set_password_ok user.id hash s s' h₅),
                )
