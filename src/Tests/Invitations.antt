-- ===== src/Tests/Invitations.antt =====
-- An invite that a signed-in user accepts.
use kde_auth.Prelude.{◌≡◌, ◌≢◌, refl, none, [], ◌∷◌}
use kde_auth.Domain.Errors.{ok}
use kde_auth.Domain.Client.{AccessMode}
use kde_auth.Domain.Email.{parse_email}
use kde_auth.Domain.Invite.{is_usable}
use kde_auth.Domain.User.{can_authorize}
use kde_auth.Exec.{◌>>=◌}
use kde_auth.State.{State, InviteRow}
use kde_auth.Store.Accesses
use kde_auth.Store.Clients
use kde_auth.Store.Invites
use kde_auth.Store.Sessions
use kde_auth.Store.Users
use kde_auth.UseCase.Invites.{load_usable, accept_existing}
use kde_auth.UseCase.Invites.Acceptance.{Accepted, accept_existing-Accepted, accept_existing-once}
use kde_auth.UseCase.Login.{resolve_session}
use kde_auth.UseCase.Register.{grant_access}
use kde_auth.Tests.Data.{deployment, moment, world, desk}

abbrev invite_of_ada : InviteRow
invite_of_ada = record {
  token_hash = "sha:invite";
  invite = record {
    id = "i1";
    token = "";
    client_id = "desk";
    email = "ada@example.org";
    created_by = "u0";
    expires_at = 900;
    used_at = none;
    revoked_at = none;
    created_at = 50;
  };
}

abbrev invited : State
invited = record world {
  clients = record desk { access_mode = AccessMode.invite_only } ∷ [];
  invites = invite_of_ada ∷ [];
}

abbrev accepted : State
accepted = (accept_existing deployment (moment 100 "r1") "invite" "session" invited).1

acceptance_run :
    accept_existing deployment (moment 100 "r1") "invite" "session" invited ≡ (ok tt, accepted)
unfolding accept_existing load_usable is_usable parse_email can_authorize resolve_session
    grant_access Invites.by_token_hash Invites.scan_invite Invites.consume Clients.by_client_id
    Sessions.by_token_hash Users.by_id Accesses.upsert ◌>>=◌
acceptance_run = refl

accept_existing-Accepted_example :
    Accepted deployment (moment 100 "r1") "invite" "session" invited accepted
accept_existing-Accepted_example =
    accept_existing-Accepted deployment (moment 100 "r1") "invite" "session" invited accepted
      acceptance_run

accept_existing-once_example :
    accept_existing deployment (moment 200 "r2") "invite" "session" accepted ≢ (ok tt, accepted)
accept_existing-once_example =
    accept_existing-once deployment (moment 100 "r1") (moment 200 "r2") "invite" "session" "session"
      invited accepted accepted acceptance_run
