-- ===== src/UseCase/Register/Accounts.antt =====
-- What a successful registration has checked and written.
use kde_auth.Prelude.{
  String, List, [], ◌∷◌, ◌++◌, ◌≡◌, true, false, some, find, exists, update_where,
}
use kde_auth.Domain.Errors.{ok}
use kde_auth.Domain.Email.{parse_email}
use kde_auth.Domain.Pkce.{new_plain_password}
use kde_auth.Domain.Client.{OauthClient, is_invite_only}
use kde_auth.Domain.User.{User}
use kde_auth.Port.{Deployment, Moment}
use kde_auth.State.{State, TicketRow}
use kde_auth.Exec.Keeps.{Keeps}
use kde_auth.Store.Accesses
use kde_auth.Store.Clients.{client_named}
use kde_auth.Store.Tickets.{ticket_hash, usable_ticket, use_ticket}
use kde_auth.Store.Users.{has_address}
use kde_auth.UseCase.Register.{RegisterInput, new_user}

pub record Registered (dep : Deployment) (at : Moment) (input : RegisterInput) (s s' : State)
    : Type 0 where
  pub email : String
  pub password : String
  pub hash : String
  pub ticket : TicketRow
  pub client : OauthClient
  pub parsed : parse_email dep.library input.email ≡ ok email
  pub accepted : new_plain_password input.password ≡ ok password
  pub hashed : at.hash_password password ≡ some hash
  pub is_open : dep.registration_open ≡ true
  pub ticket_known : find (ticket_hash (dep.hash_token input.ticket)) s.tickets ≡ some ticket
  pub usable : usable_ticket at.now ticket ≡ true
  pub client_known : find (client_named ticket.client_id) s.clients ≡ some client
  pub not_by_invite : is_invite_only client ≡ false
  pub unused_address : exists (has_address dep email) s.emails ≡ false
  pub created : s'.users ≡ s.users ++ record (new_user dep at email hash) { id = at.uuid } ∷ []
  pub spent :
      s'.tickets
      ≡ update_where (ticket_hash (dep.hash_token input.ticket)) (use_ticket at.now) s.tickets

abbrev accounts : State → List User × List TicketRow
accounts s = (s.users, s.tickets)
