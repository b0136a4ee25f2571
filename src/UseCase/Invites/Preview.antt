-- ===== src/UseCase/Invites/Preview.antt =====
-- internal/usecase/invite.go: InvitePreview, Preview, and AdminInvites.List
use kde_auth.Prelude.{String, Bool, true, false, Option, none, some, List, [], ◌==◌, if◌then◌else◌}
use kde_auth.Domain.Errors.{Result, ok, err, is_not_found}
use kde_auth.Domain.Client.{OauthClient}
use kde_auth.Domain.Invite.{Invite}
use kde_auth.Domain.User.{User}
use kde_auth.Port.{Deployment, Moment}
use kde_auth.Exec.{Exec, pure, attempt, ◌>>=◌}
use kde_auth.Store.Users
use kde_auth.Store.Invites
use kde_auth.Store.Accesses
use kde_auth.UseCase.Login.{resolve_session}
use kde_auth.UseCase.Invites.{load_usable}

pub record InvitePreview : Type 0 where
  pub invite : Invite
  pub client : OauthClient
  pub user_exists : Bool
  pub logged_in : Bool
  pub email_matches : Bool
  pub already_has : Bool

module _ (dep : Deployment) (at : Moment) where
  abbrev known_of : Result User → Result Bool
  known_of (ok _) = ok true
  known_of (err e) = if is_not_found e then ok false else err e

  unfoldable pub user_known : String → Exec Bool
  user_known email s = let (found, s') = Users.by_email dep at email s in (known_of found, s')

  abbrev pub guest_preview : Invite × OauthClient → Bool → InvitePreview
  guest_preview loaded known = record {
    invite = loaded.0;
    client = loaded.1;
    user_exists = known;
    logged_in = false;
    email_matches = false;
    already_has = false;
  }

  abbrev pub preview_for : InvitePreview → Option User → Exec InvitePreview
  preview_for preview none = pure preview
  preview_for preview (some user) =
      if user.email == preview.invite.email
      then (do
        has ← Accesses.has_access at user.id preview.client.client_id
        pure (record preview { logged_in = true; email_matches = true; already_has = has }))
      else pure (record preview { logged_in = true })

  unfoldable pub preview_invite : (raw_token session_token : String) → Exec InvitePreview
  preview_invite raw_token session_token = do
    loaded ← load_usable dep at raw_token
    known ← user_known loaded.0.email
    let preview = guest_preview loaded known
    if session_token == ""
        then pure preview
        else (do user ← attempt (resolve_session dep at session_token); preview_for preview user)

  unfoldable pub list_invites : String → Exec (List Invite)
  list_invites client_id =
      if client_id == "" then pure [] else Invites.list_by_client dep at client_id
