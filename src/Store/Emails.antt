-- ===== src/Store/Emails.antt =====
-- internal/adapter/postgres/user_email_repo.go
use kde_auth.Prelude.{
  ℕ, String, Bool, Option, none, some, is_some, List, [], ◌∷◌, ◌++◌, ◌||◌, ◌&&◌, not, ltb, leb,
  find, exists, count_where, update_where, delete_where, select_where, if◌then◌else◌,
}
use kde_auth.Domain.Errors.{ok, internal, validation_error, cannot_delete_last_email}
use kde_auth.Domain.User.{User, UserEmail, primary, secondary, is_primary, is_secondary}
use kde_auth.Port.{
  Moment, Deployment, emails_list, emails_by_email, emails_has_secondary, emails_count,
  emails_insert, emails_mark_verified, emails_delete_pending, emails_delete_verified,
}
use kde_auth.State.{State}
use kde_auth.Exec.{
  Exec, pure, gets, or_internal, transaction, select_row, write, guard, ◌>>=◌, ◌>>◌,
}
use kde_auth.Store.Users.{has_id, belongs_to, has_address, affected}

-- ORDER BY CASE role WHEN 'primary' THEN 0 ELSE 1 END, created_at
abbrev precedes : UserEmail → UserEmail → Bool
precedes a b =
    if is_primary a.role
    then not (is_primary b.role) || leb a.created_at b.created_at
    else not (is_primary b.role) && leb a.created_at b.created_at

insert_ordered : UserEmail → List UserEmail → List UserEmail
insert_ordered e [] = e ∷ []
insert_ordered e (x ∷ xs) = if precedes e x then e ∷ x ∷ xs else x ∷ insert_ordered e xs

order_emails : List UserEmail → List UserEmail
unfolding insert_ordered
order_emails [] = []
order_emails (x ∷ xs) = insert_ordered x (order_emails xs)

module _ (dep : Deployment) (at : Moment) where
  unfoldable pub list_by_user : String → Exec (List UserEmail)
  unfolding order_emails
  list_by_user id =
      transaction at emails_list
        (gets (λ s. ok (order_emails (select_where (belongs_to id) s.emails))))

  unfoldable pub by_email : String → Exec UserEmail
  by_email email =
      transaction at emails_by_email (select_row (λ s. find (has_address dep email) s.emails))

  abbrev pub secondary_of : String → UserEmail → Bool
  secondary_of id e = belongs_to id e && is_secondary e.role

  unfoldable pub has_secondary : String → Exec Bool
  has_secondary id =
      transaction at emails_has_secondary (gets (λ s. ok (exists (secondary_of id) s.emails)))

  abbrev pub verified_of : String → UserEmail → Bool
  verified_of id e = belongs_to id e && is_some e.verified_at

  unfoldable pub count_verified : String → Exec ℕ
  count_verified id =
      transaction at emails_count (gets (λ s. ok (count_where (verified_of id) s.emails)))

  -- user_emails_email_idx and user_emails_one_secondary_idx
  abbrev secondary_allowed : String → String → State → Bool
  secondary_allowed id email s =
      not (exists (has_address dep email) s.emails) && not (exists (secondary_of id) s.emails)

  abbrev pub pending_secondary : String → String → UserEmail
  pending_secondary id email = record {
    id = at.uuid;
    user_id = id;
    email = email;
    role = secondary;
    verified_at = none;
    created_at = at.now;
    updated_at = at.now;
  }

  unfoldable pub insert_pending_secondary : String → String → Exec UserEmail
  insert_pending_secondary id email = transaction at emails_insert (do
    allowed ← gets (λ s. ok (secondary_allowed id email s))
    guard allowed internal
    write (λ s. record s { emails = s.emails ++ pending_secondary id email ∷ [] })
    pure (pending_secondary id email))

  abbrev pub verified_now : UserEmail → UserEmail
  verified_now e = record e { verified_at = some at.now; updated_at = at.now }

  abbrev pub pending_row : String → String → UserEmail → Bool
  pending_row id email e =
      belongs_to id e && (has_address dep email e && not (is_some e.verified_at))

  unfoldable pub mark_verified : String → String → Exec (Unit {0})
  mark_verified id email = transaction at emails_mark_verified (do
    known ← gets (λ s. ok (exists (pending_row id email) s.emails))
    affected known
    write (λ s. record s { emails = update_where (pending_row id email) verified_now s.emails }))

  abbrev pub pending_secondary_of : String → UserEmail → Bool
  pending_secondary_of id e =
      belongs_to id e && (is_secondary e.role && not (is_some e.verified_at))

  unfoldable pub delete_pending_secondary : String → Exec (Unit {0})
  delete_pending_secondary id = transaction at emails_delete_pending (do
    known ← gets (λ s. ok (exists (pending_secondary_of id) s.emails))
    affected known
    write (λ s. record s { emails = delete_where (pending_secondary_of id) s.emails }))

  abbrev pub row_of : String → String → UserEmail → Bool
  row_of id email e = belongs_to id e && has_address dep email e

  abbrev pub promoted : UserEmail → UserEmail
  promoted e = record e { role = primary; updated_at = at.now }

  abbrev pub with_email : String → Option ℕ → User → User
  with_email email verified_at u = record u {
    email = email;
    email_verified_at = verified_at;
    updated_at = at.now;
  }

  -- The remaining address becomes the primary one, and users.email follows.
  abbrev pub promote : String → UserEmail → State → State
  promote id e s = record s {
    emails = update_where (row_of id e.email) promoted s.emails;
    users = update_where (has_id id) (with_email e.email e.verified_at) s.users;
  }

  pub promote_remaining : String → Exec (Unit {0})
  promote_remaining id = do
    remaining ← gets (λ s. ok (find (verified_of id) s.emails))
    e ← or_internal remaining
    write (promote id e)

  unfoldable pub delete_verified : String → String → Exec (Unit {0})
  unfolding promote_remaining
  delete_verified id email = transaction at emails_delete_verified (do
    row ← select_row (λ s. find (row_of id email) s.emails)
    guard (is_some row.verified_at) (validation_error "email" "email is not verified")
    verified_count ← gets (λ s. ok (count_where (verified_of id) s.emails))
    guard (not (ltb verified_count 2)) cannot_delete_last_email
    write (λ s. record s { emails = delete_where (row_of id email) s.emails })
    if is_primary row.role then promote_remaining id else pure tt)
