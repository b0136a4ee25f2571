-- ===== src/Store/Users.antt =====
-- internal/adapter/postgres/user_repo.go and the writing methods of user_admin_repo.go
use kde_auth.Prelude.{
  String, Bool, Option, none, some, is_some, [], ◌∷◌, ◌++◌, ◌&&◌, not, ◌==◌, find, exists,
  update_where, delete_where,
}
use kde_auth.Domain.Errors.{ok, internal, not_found}
use kde_auth.Domain.User.{User, UserStatus, active, UserEmail, primary, is_primary}
use kde_auth.Port.{
  Moment, Deployment, users_create, users_by_email, users_by_id, users_mark_verified,
  users_update_password, users_exists, admin_by_id, admin_set_status, admin_delete,
}
use kde_auth.State.{State, InviteRow}
use kde_auth.Exec.{Exec, pure, gets, transaction, select_row, write, guard, ◌>>=◌, ◌>>◌}

module _ (dep : Deployment) where
  -- lower(a) = lower(b)
  abbrev pub same_address : String → String → Bool
  same_address a b = dep.lower a == dep.lower b

  abbrev pub has_address : String → UserEmail → Bool
  has_address email row = same_address row.email email

abbrev pub has_id : String → User → Bool
has_id id u = u.id == id

abbrev pub belongs_to : String → UserEmail → Bool
belongs_to id row = row.user_id == id

-- RowsAffected() == 0
abbrev pub affected : Bool → Exec (Unit {0})
affected b = guard b not_found

module _ (dep : Deployment) (at : Moment) where
  -- The unique indexes of users, user_emails_email_idx and user_emails_one_primary_idx.
  abbrev insert_allowed : User → State → Bool
  insert_allowed u s =
      not (exists (has_id u.id) s.users)
      && (not (exists (λ v. same_address dep v.email u.email) s.users)
          && (not (exists (has_address dep u.email) s.emails)
              && not (exists (λ e. belongs_to u.id e && is_primary e.role) s.emails)))

  abbrev primary_row : User → UserEmail
  primary_row u = record {
    id = u.id;
    user_id = u.id;
    email = u.email;
    role = primary;
    verified_at = u.email_verified_at;
    created_at = u.created_at;
    updated_at = u.updated_at;
  }

  -- The identifier of the given user is ignored: the database draws it.
  unfoldable pub create : User → Exec String
  create user =
      let u = record user { id = at.uuid } in
      transaction at users_create (do
        allowed ← gets (λ s. ok (insert_allowed u s))
        guard allowed internal
        write (λ s. record s { users = s.users ++ u ∷ []; emails = s.emails ++ primary_row u ∷ [] })
        pure u.id)

  abbrev owner_of : State → Option UserEmail → Option User
  owner_of s none = none
  owner_of s (some e) = find (has_id e.user_id) s.users

  -- The join on user_emails: the address must be a verified one.
  abbrev pub user_by_email : String → State → Option User
  user_by_email email s =
      owner_of s (find (λ e. has_address dep email e && is_some e.verified_at) s.emails)

  unfoldable pub by_email : String → Exec User
  by_email email = transaction at users_by_email (select_row (user_by_email email))

  unfoldable pub by_id : String → Exec User
  by_id id = transaction at users_by_id (select_row (λ s. find (has_id id) s.users))

  abbrev pub activated : User → User
  activated u = record u { status = active; email_verified_at = some at.now; updated_at = at.now }

  abbrev pub verified_now : UserEmail → UserEmail
  verified_now e = record e { verified_at = some at.now; updated_at = at.now }

  unfoldable pub mark_email_verified : String → Exec (Unit {0})
  mark_email_verified id = transaction at users_mark_verified (do
    known ← gets (λ s. ok (exists (has_id id) s.users))
    affected known
    write (λ s. record s {
      users = update_where (has_id id) activated s.users;
      emails =
          update_where (λ e. belongs_to id e && (is_primary e.role && not (is_some e.verified_at)))
            verified_now s.emails;
    }))

  abbrev pub with_password : String → User → User
  with_password hash u = record u { password_hash = hash; updated_at = at.now }

  unfoldable pub update_password : String → String → Exec (Unit {0})
  update_password id hash = transaction at users_update_password (do
    known ← gets (λ s. ok (exists (has_id id) s.users))
    affected known
    write (λ s. record s { users = update_where (has_id id) (with_password hash) s.users }))

  unfoldable pub exists_by_email : String → Exec Bool
  exists_by_email email =
      transaction at users_exists (gets (λ s. ok (exists (has_address dep email) s.emails)))

  unfoldable pub admin_user_by_id : String → Exec User
  admin_user_by_id id = transaction at admin_by_id (select_row (λ s. find (has_id id) s.users))

  abbrev pub with_status : UserStatus → User → User
  with_status status u = record u { status = status; updated_at = at.now }

  unfoldable pub set_status : String → UserStatus → Exec (Unit {0})
  set_status id status = transaction at admin_set_status (do
    known ← gets (λ s. ok (exists (has_id id) s.users))
    affected known
    write (λ s. record s { users = update_where (has_id id) (with_status status) s.users }))

  abbrev without_creator : String → InviteRow → InviteRow
  without_creator id row = record row { invite = record row.invite { created_by = "" } }

  -- DELETE FROM users: the foreign keys cascade, and the invites lose their creator.
  abbrev pub remove_user : String → State → State
  remove_user id s = record s {
    users = delete_where (has_id id) s.users;
    emails = delete_where (belongs_to id) s.emails;
    sessions = delete_where (λ r. r.session.user_id == id) s.sessions;
    codes = delete_where (λ r. r.user_id == id) s.codes;
    refreshes = delete_where (λ r. r.user_id == id) s.refreshes;
    verifications = delete_where (λ r. r.user_id == id) s.verifications;
    resets = delete_where (λ r. r.user_id == id) s.resets;
    accesses = delete_where (λ r. r.user_id == id) s.accesses;
    invites = update_where (λ r. r.invite.created_by == id) (without_creator id) s.invites;
  }

  unfoldable pub delete : String → Exec (Unit {0})
  delete id = transaction at admin_delete (do
    known ← gets (λ s. ok (exists (has_id id) s.users))
    affected known
    write (remove_user id))
