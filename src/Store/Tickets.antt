-- ===== src/Store/Tickets.antt =====
-- internal/adapter/postgres/registration_ticket_repo.go
use kde_auth.Prelude.{
  ℕ, String, Bool, true, false, none, some, is_some, [], ◌∷◌, ◌++◌, ◌&&◌, not, ◌==◌, ltb, find,
  exists, update_where, if◌then◌else◌,
}
use kde_auth.Domain.Errors.{ok, internal, invalid_token}
use kde_auth.Domain.Token.{RegistrationTicket}
use kde_auth.Port.{Moment, Op, tickets_create, tickets_peek, tickets_consume}
use kde_auth.State.{TicketRow}
use kde_auth.Exec.{Exec, pure, gets, transaction, select_row, write, guard, ◌>>=◌, ◌>>◌}

abbrev pub ticket_hash : String → TicketRow → Bool
ticket_hash h r = r.token_hash == h

abbrev pub ticket_row : RegistrationTicket → String → TicketRow
ticket_row ticket h = record {
  token_hash = h;
  client_id = ticket.client_id;
  expires_at = ticket.expires_at;
  used_at = none;
}

abbrev pub ticket_of : TicketRow → RegistrationTicket
ticket_of r = record {
  token = "";
  client_id = r.client_id;
  expires_at = r.expires_at;
  used_at = r.used_at;
}

abbrev pub usable_ticket : ℕ → TicketRow → Bool
usable_ticket now r = not (is_some r.used_at) && ltb now r.expires_at

abbrev pub use_ticket : ℕ → TicketRow → TicketRow
use_ticket now r = record r { used_at = some now }

module _ (at : Moment) where
  unfoldable pub create : RegistrationTicket → String → Exec (Unit {0})
  create ticket h = transaction at tickets_create (do
    taken ← gets (λ s. ok (exists (ticket_hash h) s.tickets))
    guard (not taken) internal
    write (λ s. record s { tickets = s.tickets ++ ticket_row ticket h ∷ [] }))

  pub load : Op → String → ℕ → Bool → Exec RegistrationTicket
  load op h now consuming = transaction at op (do
    row ← select_row (λ s. find (ticket_hash h) s.tickets)
    guard (usable_ticket now row) invalid_token
    write (λ s.
        if consuming
        then record s { tickets = update_where (ticket_hash h) (use_ticket now) s.tickets }
        else s)
    pure (ticket_of row))

  unfoldable pub peek : String → ℕ → Exec RegistrationTicket
  unfolding load
  peek h now = load tickets_peek h now false

  unfoldable pub consume : String → ℕ → Exec RegistrationTicket
  unfolding load
  consume h now = load tickets_consume h now true
