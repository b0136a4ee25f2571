-- ===== src/UseCase/Verify/Activation.antt =====
-- What a verified primary address does to the account.
use kde_auth.Prelude.{
  ℕ, String, ◌≡◌, refl, sym, ap, ◌∙◌, true, not, some, find, subst, eq_iff, List, exists,
  update_where, ◌==◌, arith,
}
use kde_auth.Prelude.Rows.{find-update_where, find-holds}
use kde_auth.Domain.Errors.{ok, invalid_token}
use kde_auth.Domain.User.{User, can_authorize}
use kde_auth.Domain.Token.{EmailVerificationToken}
use kde_auth.Port.{Deployment, Moment}
use kde_auth.State.{State, VerificationRow}
use kde_auth.Exec.{◌>>=◌}
use kde_auth.Exec.Rules.{if_not_found_ok}
use kde_auth.Exec.Reads.{after, after_guard}
use kde_auth.Store.Users
use kde_auth.Store.Users.{has_id}
use kde_auth.Store.Tokens.{coalesce}
use kde_auth.Store.Tokens.Verifications.{
  verification_hash, verification_of, usable_verification, consume_email_verification_token,
}
use kde_auth.UseCase.Verify.{apply_verification, verify_email}

consume_verification_ok :
    (at : Moment) (h : String) (now : ℕ) (s : State) (row : VerificationRow)
    (token : EmailVerificationToken) (t : State)
    → find (verification_hash h) s.verifications ≡ some row
    → consume_email_verification_token at h now s ≡ (ok token, t)
    → (usable_verification now row ≡ true) × (verification_of row ≡ token) × (s.users ≡ t.users)
unfolding consume_email_verification_token ◌>>=◌
consume_verification_ok at h now s row token t found e = (ground arith, ground arith, ground arith)

module _ (dep : Deployment) (at : Moment) where
  activated-can_authorize : (user : User) → can_authorize (Users.activated dep at user) ≡ ok tt
  unfolding can_authorize
  activated-can_authorize user = refl

  mark_verified_ok :
      (id : String) (s t : State)
      → Users.mark_email_verified dep at id s ≡ (ok tt, t)
      → (exists (has_id id) s.users ≡ true)
        × (t.users ≡ update_where (has_id id) (Users.activated dep at) s.users)
  unfolding Users.mark_email_verified ◌>>=◌
  mark_verified_ok id s t h = (ground arith, ground arith)

  primary_applied :
      (token : EmailVerificationToken) (t s' : State)
      → token.email ≡ ""
      → apply_verification dep at token t ≡ (ok tt, s')
      → Users.mark_email_verified dep at token.user_id t ≡ (ok tt, s')
  unfolding apply_verification
  primary_applied token t s' e h = ground (arith, (eq_iff token.email "").1 e)

  has_id-activated :
      (id : String) (us : List User) (user : User)
      → find (has_id id) us ≡ some user
      → find (has_id id) (update_where (has_id id) (Users.activated dep at) us)
        ≡ some (Users.activated dep at user)
  has_id-activated id us user h =
      find-update_where (has_id id) (has_id id) (Users.activated dep at) us (λ u. refl)
      ∙ rw (h, find-holds (has_id id) us h) refl

  -- A verification token without an address activates the account it names: after a successful
  -- verification the account may authorize, whatever its status was, suspended included.
  pub verify_email-active :
      (raw_token : String) (row : VerificationRow) (user : User) (s s' : State)
      → find (verification_hash (dep.hash_token raw_token)) s.verifications ≡ some row
      → coalesce row.email ≡ ""
      → find (has_id row.user_id) s.users ≡ some user
      → verify_email dep at raw_token s ≡ (ok tt, s')
      → (find (has_id row.user_id) s'.users ≡ some (Users.activated dep at user))
        × (can_authorize (Users.activated dep at user) ≡ ok tt)
  unfolding verify_email apply_verification
  verify_email-active raw_token row user s s' found primary known h =
      after_guard (not (raw_token == "")) invalid_token _ _ h λ _ h₁. after _ _ s h₁ λ token t c h₂.
        let (_, same, kept) =
          consume_verification_ok at _ at.now s row token t found
            (if_not_found_ok invalid_token _ s c) in
        let applied =
          primary_applied token t s'
            (ap (λ (x : EmailVerificationToken). x.email) (sym same) ∙ primary) h₂ in
        (
          ap (λ (us : List User). find (has_id row.user_id) us)
                (mark_verified_ok token.user_id t s' applied).1
              ∙ subst
                  (λ (id : String).
                    find (has_id row.user_id)
                      (update_where (has_id id) (Users.activated dep at) t.users)
                    ≡ some (Users.activated dep at user))
                  (ap (λ (x : EmailVerificationToken). x.user_id) same)
                  (has_id-activated row.user_id t.users user
                    (ap (λ (us : List User). find (has_id row.user_id) us) (sym kept) ∙ known)),
          activated-can_authorize user,
        )
