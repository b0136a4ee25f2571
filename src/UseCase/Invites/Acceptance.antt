-- ===== src/UseCase/Invites/Acceptance.antt =====
-- What an accepted invite has checked and written.
use kde_auth.Prelude.{
  ℕ, String, Option, none, eq_iff, ◌≢◌, if◌then◌else◌, List, ◌≡◌, refl, sym, ap, ◌∙◌, subst, true,
  some, ◌==◌, ◌&&◌, ltb, find, exists, update_where, arith,
}
use kde_auth.Domain.Errors.{ok, unauthorized}
use kde_auth.Domain.Email.{parse_email}
use kde_auth.Domain.Client.{OauthClient}
use kde_auth.Domain.Invite.{is_usable}
use kde_auth.Domain.User.{User, can_authorize}
use kde_auth.Port.{Deployment, Moment}
use kde_auth.State.{State, InviteRow, SessionRow}
use kde_auth.Exec.Reads.{Reads-or_error, after, after_read, after_guard, or_error_value}
use kde_auth.Store.Accesses.{access_to}
use kde_auth.Store.Clients.{client_named}
use kde_auth.Store.Invites.{invite_hash, open_invite, use_invite}
use kde_auth.Store.Users.{has_id}
use kde_auth.UseCase.Invites.{accept_existing}
use kde_auth.UseCase.Login.Resolution.{live_row, resolve_session-Reads, resolve_session_ok}
use kde_auth.Prelude.Rows.{find-update_where}
use kde_auth.UseCase.Invites.Loading.{
  load_usable-Reads, load_usable_ok, grant_access_ok, consume_ok, usable-open,
}

abbrev RowUsable : ℕ → Option InviteRow → Type 0
RowUsable now none = Unit {0}
RowUsable now (some row) = is_usable row.invite now ≡ true

module _ (dep : Deployment) (at : Moment) where
  -- What an acceptance by a signed-in user has checked, and what it has written.
  pub record Accepted (raw session : String) (s s' : State) : Type 0 where
    pub row : InviteRow
    pub row_known : find (invite_hash (dep.hash_token raw)) s.invites ≡ some row
    pub usable : is_usable row.invite at.now ≡ true
    pub client : OauthClient
    pub client_known : find (client_named row.invite.client_id) s.clients ≡ some client
    pub live : SessionRow
    pub session_live : live_row dep at session s ≡ some live
    pub user : User
    pub user_known : find (has_id live.session.user_id) s.users ≡ some user
    pub allowed : can_authorize user ≡ ok tt
    pub invited : parse_email dep.library row.invite.email ≡ ok user.email
    pub access : exists (access_to user.id client.client_id) s'.accesses ≡ true
    pub spent : find (invite_hash (dep.hash_token raw)) s'.invites ≡ some (use_invite at.now row)

  abbrev consumed : String → List InviteRow → List InviteRow
  consumed id rows =
      update_where (λ r. open_invite id r && ltb at.now r.invite.expires_at) (use_invite at.now)
        rows

  -- The row of the link, after the invite of its id was consumed.
  consumed_row :
      (h id : String) (rows : List InviteRow) (row : InviteRow)
      → find (invite_hash h) rows ≡ some row
      → (open_invite id row && ltb at.now row.invite.expires_at) ≡ true
      → find (invite_hash h) (consumed id rows) ≡ some (use_invite at.now row)
  consumed_row h id rows row known still_open =
      find-update_where (invite_hash h) (λ r. open_invite id r && ltb at.now r.invite.expires_at)
        (use_invite at.now) rows (λ r. refl)
      ∙ rw known (ap (λ b. some (if b then use_invite at.now row else row)) still_open)

  -- An acceptance that succeeds was made with a link whose invite is stored and was neither used,
  -- revoked nor expired, for a known client, by a user with a live session who may authorize and
  -- whose address is the one that was invited. It gives the user access to the client, and leaves
  -- the invite used.
  pub accept_existing-Accepted :
      (raw session : String) (s s' : State)
      → accept_existing dep at raw session s ≡ (ok tt, s')
      → Accepted raw session s s'
  unfolding accept_existing
  accept_existing-Accepted raw session s s' h =
      after_read _ _ s (load_usable-Reads dep at raw) h λ loaded v h₁.
        let l =
          load_usable_ok dep at raw s s loaded.0 loaded.1
            (λ i. (v i, (load_usable-Reads dep at raw).same s i)) in
        after_read _ _ s (Reads-or_error _ _ (resolve_session-Reads dep at session)) h₁ λ user w h₂.
          let (live, found, known, allowed) =
            resolve_session_ok dep at session s user (or_error_value unauthorized _ s user w) in
          after_guard (user.email == loaded.0.email) _ _ s h₂ λ match h₃.
            after _ _ s h₃ λ _ t granted done.
              let (access, same) = grant_access_ok dep at user.id loaded.1.client_id s t granted in
              let (kept, used) = consume_ok dep at loaded.0.id t s' done in
              record {
                row = l.row;
                row_known = l.row_known;
                usable = l.usable;
                client = loaded.1;
                client_known = l.client_known;
                live = live;
                session_live = found;
                user = user;
                user_known = known;
                allowed = allowed;
                invited = l.parsed ∙ ap ok (sym ((eq_iff user.email loaded.0.email).0 match));
                access = ap (exists (access_to user.id loaded.1.client_id)) kept ∙ access;
                spent =
                    ap (find (invite_hash (dep.hash_token raw)))
                      (used ∙ ap (consumed loaded.0.id) same)
                    ∙ consumed_row (dep.hash_token raw) loaded.0.id s.invites l.row l.row_known
                        (usable-open dep at l.row loaded.0.id l.same_id l.usable);
              }

-- In the state that an acceptance leaves, no further acceptance of the same link succeeds, at any
-- moment and with any session.
pub accept_existing-once :
    (dep : Deployment) (at later : Moment) (raw session other : String) (s s' t' : State)
    → accept_existing dep at raw session s ≡ (ok tt, s')
    → accept_existing dep later raw other s' ≢ (ok tt, t')
unfolding is_usable
accept_existing-once dep at later raw session other s s' t' first second =
    let a = accept_existing-Accepted dep at raw session s s' first in
    let b = accept_existing-Accepted dep later raw other s' t' second in
    let same = sym a.spent ∙ b.row_known in
    let usable = subst (λ (r : Option InviteRow). RowUsable later.now r) (sym same) b.usable in
    ground (arith, usable)
