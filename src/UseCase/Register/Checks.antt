-- ===== src/UseCase/Register/Checks.antt =====
-- The calls of a registration that look up and consume the ticket, and create the account.
use kde_auth.Prelude.{
  not-true, String, [], ◌∷◌, ◌++◌, ◌≡◌, sym, ◌∙◌, subst, Bool, true, false, not, some, inl, inr,
  Option-cases, find, exists, update_where, arith,
}
use kde_auth.Domain.Errors.{ok, invalid_token}
use kde_auth.Domain.Client.{OauthClient, is_invite_only}
use kde_auth.Domain.Token.{RegistrationTicket}
use kde_auth.Domain.User.{User}
use kde_auth.Port.{Deployment, Moment, clients_by_id, users_exists}
use kde_auth.State.{State, TicketRow}
use kde_auth.Exec.{if_not_found, ◌>>=◌}
use kde_auth.Exec.Reads.{
  Reads, reads_rules, after, after_read, after_guard, query_value, gets_value, if_not_found_value,
}
use kde_auth.Exec.Rules.{if_not_found_ok, pure_ok}
use kde_auth.Store.Clients
use kde_auth.Store.Clients.{client_named}
use kde_auth.Store.Tickets
use kde_auth.Store.Tickets.{ticket_hash, ticket_of, usable_ticket, use_ticket}
use kde_auth.Store.Users
use kde_auth.Store.Users.{has_address}
use kde_auth.UseCase.Register.{peek_ticket}

module _ (dep : Deployment) (at : Moment) where
  pub peek_ok :
      (h : String) (s t : State) (ticket : RegistrationTicket)
      → Tickets.peek at h at.now s ≡ (ok ticket, t)
      → (row : TicketRow) × (find (ticket_hash h) s.tickets ≡ some row)
        × (usable_ticket at.now row ≡ true)
        × (ticket_of row ≡ ticket)
        × (s ≡ t)
  unfolding Tickets.peek ◌>>=◌
  peek_ok h s t ticket e = elim (Option-cases (find (ticket_hash h) s.tickets)) [
    | inl missing ↦ absurd (ground arith)
    | inr (row, found) ↦ (row, found, ground arith, ground arith, ground arith)
  ]

  pub client_ok :
      (id : String) (s : State) (client : OauthClient)
      → (if_not_found invalid_token (Clients.by_client_id at id) s).0 ≡ ok client
      → find (client_named id) s.clients ≡ some client
  unfolding Clients.by_client_id
  client_ok id s client h =
      query_value at clients_by_id _ s client (if_not_found_value invalid_token _ s client h)

  pub client-Reads : (id : String) → Reads (if_not_found invalid_token (Clients.by_client_id at id))
  unfolding Clients.by_client_id
  client-Reads id = search reads_rules

  pub exists-Reads : (email : String) → Reads (Users.exists_by_email dep at email)
  unfolding Users.exists_by_email
  exists-Reads email = search reads_rules

  pub exists_ok :
      (email : String) (s : State) (b : Bool)
      → (Users.exists_by_email dep at email s).0 ≡ ok b
      → exists (has_address dep email) s.emails ≡ b
  unfolding Users.exists_by_email
  exists_ok email s b h = gets_value at users_exists _ s b h

  pub peek_ticket_ok :
      (raw : String) (s t : State) (ticket : RegistrationTicket)
      → peek_ticket dep at raw s ≡ (ok ticket, t)
      → (row : TicketRow) × (client : OauthClient) × (dep.registration_open ≡ true)
        × (find (ticket_hash (dep.hash_token raw)) s.tickets ≡ some row)
        × (usable_ticket at.now row ≡ true)
        × (find (client_named row.client_id) s.clients ≡ some client)
        × (is_invite_only client ≡ false)
        × (s ≡ t)
  unfolding peek_ticket
  peek_ticket_ok raw s t ticket h = after_guard dep.registration_open _ _ _ h λ opened h₁.
      after_guard _ _ _ _ h₁ λ _ h₂. after _ _ s h₂ λ peeked u p h₃.
        let (row, found, usable, same, kept) =
          peek_ok (dep.hash_token raw) s u peeked (if_not_found_ok invalid_token _ s p) in
        after_read _ _ u (client-Reads peeked.client_id) h₃ λ client c h₄.
          after_guard (not (is_invite_only client)) _ _ _ h₄ λ invited h₅. (
            row,
            client,
            opened,
            found,
            usable,
            subst
                (λ (x : RegistrationTicket × State).
                  find (client_named x.0.client_id) x.1.clients ≡ some client)
                (λ i. (sym same i, sym kept i)) (client_ok peeked.client_id u client c),
            not-true (is_invite_only client) invited,
            kept ∙ (pure_ok peeked u h₅).1,
          )

  pub consume_ok :
      (h : String) (s t : State) (ticket : RegistrationTicket)
      → Tickets.consume at h at.now s ≡ (ok ticket, t)
      → record s { tickets = update_where (ticket_hash h) (use_ticket at.now) s.tickets } ≡ t
  unfolding Tickets.consume ◌>>=◌
  consume_ok h s t ticket e = elim (Option-cases (find (ticket_hash h) s.tickets)) [
    | inl missing ↦ absurd (ground arith)
    | inr (row, found) ↦ ground arith
  ]

  pub create_ok :
      (u : User) (s t : State) (id : String)
      → Users.create dep at u s ≡ (ok id, t)
      → (t.users ≡ s.users ++ record u { id = at.uuid } ∷ []) × (t.tickets ≡ s.tickets)
  unfolding Users.create ◌>>=◌
  create_ok u s t id e = (ground arith, ground arith)
