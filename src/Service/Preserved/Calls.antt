-- ===== src/Service/Preserved/Calls.antt =====
-- A property that ignores five tables is kept by the methods on those.
use kde_auth.Prelude.{ℕ, String, List, Bool, true, false, exists, if◌then◌else◌}
use kde_auth.Domain.User.{UserAppAccess, Session}
use kde_auth.Domain.Client.{OauthClient, AccessMode}
use kde_auth.Domain.Invite.{Invite}
use kde_auth.Port.{Deployment, Moment}
use kde_auth.State.{State}
use kde_auth.Exec.{write}
use kde_auth.Exec.Keeps.{Keeps, keeps_rules, Keeps-write, Keeps-draw}
use kde_auth.Store.Users
use kde_auth.Store.Sessions
use kde_auth.Store.Clients
use kde_auth.Store.Invites
use kde_auth.Store.Accesses
use kde_auth.Store.Tickets
use kde_auth.Store.Emails
use kde_auth.Service.Preserved.{Ignores}

module _ {P : State → Type 0} (ig : Ignores P) where
  if_keeps : (b : Bool) (s t u : State) → P t → P u → P (if b then t else u)
  if_keeps true s t u p q = p
  if_keeps false s t u p q = q

  pub write_upserted_access : (a : UserAppAccess) → Keeps P (write (Accesses.upserted a))
  write_upserted_access a = Keeps-write _ (λ s p.
      if_keeps (exists (Accesses.access_to a.user_id a.client_id) s.accesses) s _ _
        (ig.accesses s _ p) (ig.accesses s _ p))

  pub write_upserted_client :
      (at : Moment) (c : OauthClient) → Keeps P (write (Clients.upserted at c))
  write_upserted_client at c = Keeps-write _ (λ s p.
      if_keeps (exists (Clients.client_named c.client_id) s.clients) s _ _ (ig.clients s _ p)
        (ig.clients s _ p))

module _ {P : State → Type 0} (at : Moment) (ig : Ignores P) where
  pub create_session-Keeps : (x : Session) (h : String) → Keeps P (Sessions.create at x h)
  unfolding Sessions.create
  create_session-Keeps x h = search (keeps_rules, Keeps-write, ig.sessions)

  pub revoke_session-Keeps : (h : String) (now : ℕ) → Keeps P (Sessions.revoke at h now)
  unfolding Sessions.revoke
  revoke_session-Keeps h now = search (keeps_rules, Keeps-write, ig.sessions)

  pub revoke_sessions-Keeps :
      (id : String) (now : ℕ) → Keeps P (Sessions.revoke_all_for_user at id now)
  unfolding Sessions.revoke_all_for_user
  revoke_sessions-Keeps id now = search (keeps_rules, Keeps-write, ig.sessions)

  pub upsert_access-Keeps : (a : UserAppAccess) → Keeps P (Accesses.upsert at a)
  unfolding Accesses.upsert
  upsert_access-Keeps a = search (keeps_rules, write_upserted_access)

  pub upsert_client-Keeps : (c : OauthClient) → Keeps P (Clients.upsert at c)
  unfolding Clients.upsert
  upsert_client-Keeps c = search (keeps_rules, write_upserted_client)

  pub read_client-Keeps : (client_id : String) → Keeps P (Clients.by_client_id at client_id)
  unfolding Clients.by_client_id
  read_client-Keeps client_id = search keeps_rules

  pub read_session-Keeps : (h : String) (now : ℕ) → Keeps P (Sessions.by_token_hash at h now)
  unfolding Sessions.by_token_hash
  read_session-Keeps h now = search keeps_rules

  pub has_access-Keeps : (id client_id : String) → Keeps P (Accesses.has_access at id client_id)
  unfolding Accesses.has_access
  has_access-Keeps id client_id = search keeps_rules

  pub peek_ticket-Keeps : (h : String) (now : ℕ) → Keeps P (Tickets.peek at h now)
  unfolding Tickets.peek
  peek_ticket-Keeps h now = search (keeps_rules, Keeps-write)

  pub access_mode-Keeps :
      (client_id : String) (mode : AccessMode)
      → Keeps P (Clients.update_access_mode at client_id mode)
  unfolding Clients.update_access_mode
  access_mode-Keeps client_id mode = search (keeps_rules, Keeps-write, ig.clients)

  pub redirects-Keeps :
      (client_id : String) (uris : List String) (pkg : String)
      → Keeps P (Clients.update_redirect_uris at client_id uris pkg)
  unfolding Clients.update_redirect_uris
  redirects-Keeps client_id uris pkg = search (keeps_rules, Keeps-write, ig.clients)

module _ {P : State → Type 0} (dep : Deployment) (at : Moment) (ig : Ignores P) where
  pub create_invite-Keeps : (i : Invite) (h : String) → Keeps P (Invites.create dep at i h)
  unfolding Invites.create
  create_invite-Keeps i h = search (keeps_rules, Keeps-write, ig.invites)

  pub consume_invite-Keeps : (id : String) (now : ℕ) → Keeps P (Invites.consume dep at id now)
  unfolding Invites.consume
  consume_invite-Keeps id now = search (keeps_rules, Keeps-write, ig.invites)

  pub revoke_invite-Keeps : (id : String) (now : ℕ) → Keeps P (Invites.revoke dep at id now)
  unfolding Invites.revoke
  revoke_invite-Keeps id now = search (keeps_rules, Keeps-write, ig.invites)

  pub read_invite-Keeps : (h : String) → Keeps P (Invites.by_token_hash dep at h)
  unfolding Invites.by_token_hash
  read_invite-Keeps h = search keeps_rules

  pub read_user-Keeps : (id : String) → Keeps P (Users.by_id dep at id)
  unfolding Users.by_id
  read_user-Keeps id = search keeps_rules

  pub admin_user-Keeps : (id : String) → Keeps P (Users.admin_user_by_id dep at id)
  unfolding Users.admin_user_by_id
  admin_user-Keeps id = search keeps_rules

  pub user_by_email-Keeps : (email : String) → Keeps P (Users.by_email dep at email)
  unfolding Users.by_email
  user_by_email-Keeps email = search keeps_rules

  pub exists_by_email-Keeps : (email : String) → Keeps P (Users.exists_by_email dep at email)
  unfolding Users.exists_by_email
  exists_by_email-Keeps email = search keeps_rules

  pub has_secondary-Keeps : (id : String) → Keeps P (Emails.has_secondary dep at id)
  unfolding Emails.has_secondary
  has_secondary-Keeps id = search keeps_rules

pub ruleset call_rules = (
  keeps_rules, create_session-Keeps, revoke_session-Keeps, revoke_sessions-Keeps,
  upsert_access-Keeps, upsert_client-Keeps, read_client-Keeps, read_session-Keeps, has_access-Keeps,
  peek_ticket-Keeps, access_mode-Keeps, redirects-Keeps, create_invite-Keeps, consume_invite-Keeps,
  revoke_invite-Keeps, read_invite-Keeps, read_user-Keeps, admin_user-Keeps, user_by_email-Keeps,
  exists_by_email-Keeps, has_secondary-Keeps,
)
