-- ===== src/UseCase/AdminUsers.antt =====
-- internal/usecase/admin.go: the methods of AdminUsers that write
pub mod Suspension
pub mod Listing
use kde_auth.Prelude.{String, Bool, true, false, ◌&&◌, not, ◌==◌, if◌then◌else◌}
use kde_auth.Domain.Errors.{forbidden, validation_error}
use kde_auth.Domain.User.{User, UserStatus, other, is_admin, is_suspended}
use kde_auth.Port.{Deployment, Moment}
use kde_auth.Exec.{Exec, pure, guard, ◌>>=◌, ◌>>◌}
use kde_auth.Store.Users
use kde_auth.Store.Sessions
use kde_auth.Store.Tokens.Refreshes.{revoke_all_refresh_tokens_for_user}

abbrev pub is_known : UserStatus → Bool
is_known (other _) = false
is_known _ = true

module _ (dep : Deployment) (at : Moment) where
  unfoldable pub revoke_access : String → Exec (Unit {0})
  revoke_access id = do
    Sessions.revoke_all_for_user at id at.now
    revoke_all_refresh_tokens_for_user at id at.now

  unfoldable pub set_status : User → String → UserStatus → Exec (Unit {0})
  set_status actor id status = do
    guard (is_admin actor) forbidden
    guard (is_known status) (validation_error "status" "invalid status")
    guard (not (actor.id == id && is_suspended status))
        (validation_error "status" "cannot suspend your own account")
    Users.set_status dep at id status
    if not (is_suspended status) then pure tt else revoke_access id

  unfoldable pub delete_user : User → String → Exec (Unit {0})
  delete_user actor id = do
    guard (is_admin actor) forbidden
    guard (not (actor.id == id)) (validation_error "user_id" "cannot delete your own account")
    guard (not (id == "")) (validation_error "user_id" "required")
    target ← Users.admin_user_by_id dep at id
    guard (not (is_admin target)) (validation_error "user_id" "cannot delete an admin account")
    Users.delete dep at id

  unfoldable pub revoke_sessions : User → String → Exec (Unit {0})
  revoke_sessions actor id = do
    guard (is_admin actor) forbidden
    guard (not (id == "")) (validation_error "user_id" "required")
    Users.admin_user_by_id dep at id
    revoke_access id
