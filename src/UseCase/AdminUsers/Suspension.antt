-- ===== src/UseCase/AdminUsers/Suspension.antt =====
-- A suspension ends what the user was signed in to.
use kde_auth.Prelude.{
  String, List, [], ◌∷◌, ◌≡◌, refl, Bool, true, false, none, some, Option-cases, inl, inr,
  update_where, find, exists, arith, sym, ap, ◌∙◌, subst,
}
use kde_auth.Prelude.Rows.{find-holds, find-update_where}
use kde_auth.Domain.Errors.{ok, err, forbidden}
use kde_auth.Domain.User.{User, UserStatus, suspended, is_admin, can_authenticate, is_suspended}
use kde_auth.Port.{Deployment, Moment}
use kde_auth.State.{State}
use kde_auth.Exec.{◌>>=◌}
use kde_auth.UseCase.AdminUsers.{is_known, set_status}
use kde_auth.Exec.Reads.{after, after_guard}
use kde_auth.Store.Users
use kde_auth.Store.Users.{has_id}
use kde_auth.UseCase.SignedOut.{SignedOut, revoked-SignedOut, revoke_access_ok}

not_exists : (p : User → Bool) (us : List User) → find p us ≡ none → exists p us ≡ false
not_exists p [] h = refl
not_exists p (u ∷ us) h = ground (arith, not_exists p us)

module _ (dep : Deployment) (at : Moment) where
  has_id-status :
      (id : String) (status : UserStatus) (us : List User) (user : User)
      → find (has_id id) us ≡ some user
      → find (has_id id) (update_where (has_id id) (Users.with_status dep at status) us)
        ≡ some (Users.with_status dep at status user)
  has_id-status id status us user h =
      find-update_where (has_id id) (has_id id) (Users.with_status dep at status) us (λ u. refl)
      ∙ rw (h, find-holds (has_id id) us h) refl

  denied : (user : User) → user.status ≡ suspended → can_authenticate user ≡ err forbidden
  unfolding can_authenticate is_suspended
  denied user h = rw h

  set_user_status_ok :
      (id : String) (status : UserStatus) (s t : State)
      → Users.set_status dep at id status s ≡ (ok tt, t)
      → (user : User) × (find (has_id id) t.users ≡ some user) × (user.status ≡ status)
  unfolding Users.set_status ◌>>=◌
  set_user_status_ok id status s t h = elim (Option-cases (find (has_id id) s.users)) [
    | inl missing ↦ absurd (ground (arith, not_exists (has_id id) s.users missing))
    | inr (user, known) ↦ (
      Users.with_status dep at status user,
      ground (arith, known, has_id-status id status s.users user known),
      refl,
    )
  ]

  -- A suspension by an administrator leaves the user no session and no refresh token that is not
  -- revoked, and an account that may not authenticate.
  pub set_status-SignedOut :
      (actor : User) (id : String) (s s' : State)
      → set_status dep at actor id suspended s ≡ (ok tt, s')
      → (is_admin actor ≡ true)
        × SignedOut id s'
        × (user : User) × (find (has_id id) s'.users ≡ some user)
        × (can_authenticate user ≡ err forbidden)
  unfolding set_status
  set_status-SignedOut actor id s s' h = after_guard (is_admin actor) forbidden _ _ h λ admin h₁.
      after_guard (is_known suspended) _ _ _ h₁ λ _ h₂. after_guard _ _ _ _ h₂ λ _ h₃.
        after _ _ s h₃ λ _ t set h₄.
          let moved = revoke_access_ok dep at id t s' h₄ in
          let (user, known, status) = set_user_status_ok id suspended s t set in
          (
            admin,
            subst (SignedOut id) moved (revoked-SignedOut id at.now t),
            user,
            ap (λ (u : State). find (has_id id) u.users) (sym moved) ∙ known,
            denied user status,
          )
