-- ===== src/Store/Invites.antt =====
-- internal/adapter/postgres/invite_repo.go
use kde_auth.Prelude.{
  ℕ, String, Bool, none, some, is_some, [], ◌∷◌, ◌++◌, ◌&&◌, not, ◌==◌, ltb, find, exists,
  update_where, select_where, order_by, take, leb, List,
}
use kde_auth.Domain.Errors.{ok, internal, invalid_token, not_found}
use kde_auth.Domain.Email.{parse_email}
use kde_auth.Domain.Invite.{Invite}
use kde_auth.Port.{
  Moment, Deployment, invites_create, invites_by_hash, invites_list, invites_consume,
  invites_revoke,
}
use kde_auth.State.{InviteRow}
use kde_auth.Exec.{Exec, pure, gets, lift, transaction, select_row, write, guard, ◌>>=◌, ◌>>◌}

abbrev pub invite_hash : String → InviteRow → Bool
invite_hash h r = r.token_hash == h

-- id = $1 AND used_at IS NULL AND revoked_at IS NULL
abbrev pub open_invite : String → InviteRow → Bool
open_invite id r =
    r.invite.id == id && (not (is_some r.invite.used_at) && not (is_some r.invite.revoked_at))

abbrev pub use_invite : ℕ → InviteRow → InviteRow
use_invite now r = record r { invite = record r.invite { used_at = some now } }

abbrev pub revoke_invite : ℕ → InviteRow → InviteRow
revoke_invite now r = record r { invite = record r.invite { revoked_at = some now } }

module _ (dep : Deployment) (at : Moment) where
  -- The raw token is not stored, and the database stamps the creation.
  abbrev pub invite_row : Invite → String → InviteRow
  invite_row invite h = record {
    token_hash = h;
    invite = record invite {
      id = at.uuid;
      token = "";
      used_at = none;
      revoked_at = none;
      created_at = at.now;
    };
  }

  unfoldable pub create : Invite → String → Exec (Unit {0})
  create invite h = transaction at invites_create (do
    taken ← gets (λ s. ok (exists (λ r. invite_hash h r) s.invites))
    guard (not taken) internal
    write (λ s. record s { invites = s.invites ++ invite_row invite h ∷ [] }))

  -- The address is parsed again when the row is read.
  unfoldable pub scan_invite : InviteRow → Exec Invite
  scan_invite r = do
    email ← lift (parse_email dep.library r.invite.email)
    pure (record r.invite { email = email })

  unfoldable pub by_token_hash : String → Exec Invite
  unfolding scan_invite
  by_token_hash h =
      transaction at invites_by_hash
        (do row ← select_row (λ s. find (invite_hash h) s.invites); scan_invite row)

  pub scan_invites : List InviteRow → Exec (List Invite)
  unfolding scan_invite
  scan_invites [] = pure []
  scan_invites (r ∷ rows) = do
    invite ← scan_invite r
    rest ← scan_invites rows
    pure (invite ∷ rest)

  abbrev newer : InviteRow → InviteRow → Bool
  newer a b = leb b.invite.created_at a.invite.created_at

  unfoldable pub list_by_client : String → Exec (List Invite)
  unfolding scan_invites
  list_by_client client_id = transaction at invites_list (do
    rows ← gets (λ s.
        ok (
          take 200
            (order_by newer (select_where (λ r. r.invite.client_id == client_id) s.invites))))
    scan_invites rows)

  unfoldable pub consume : String → ℕ → Exec (Unit {0})
  consume id now = transaction at invites_consume (do
    known ← gets (λ s. ok (exists (λ r. open_invite id r && ltb now r.invite.expires_at) s.invites))
    guard known invalid_token
    write (λ s. record s {
      invites =
          update_where (λ r. open_invite id r && ltb now r.invite.expires_at) (use_invite now)
            s.invites;
    }))

  unfoldable pub revoke : String → ℕ → Exec (Unit {0})
  revoke id now = transaction at invites_revoke (do
    known ← gets (λ s. ok (exists (open_invite id) s.invites))
    guard known not_found
    write (λ s. record s { invites = update_where (open_invite id) (revoke_invite now) s.invites }))
