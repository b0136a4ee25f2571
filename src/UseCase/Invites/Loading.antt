-- ===== src/UseCase/Invites/Loading.antt =====
-- What the look-up of an invite link, the grant of access and the use of an invite do.
use kde_auth.Prelude.{
  String, Bool, List, [], ◌∷◌, ◌++◌, ◌≡◌, refl, str_eq_refl, sym, ap, ◌∙◌, subst, true, some, ◌==◌,
  ◌&&◌, ltb, inl, inr, Bool-cases, Option-cases, find, exists, update_where, arith,
}
use kde_auth.Domain.Errors.{ok, Result-cases, invalid_token}
use kde_auth.Domain.Email.{parse_email}
use kde_auth.Domain.Client.{OauthClient}
use kde_auth.Domain.Invite.{Invite, is_usable}
use kde_auth.Domain.User.{UserAppAccess}
use kde_auth.Port.{Deployment, Moment, clients_by_id, accesses_upsert}
use kde_auth.State.{State, InviteRow}
use kde_auth.Exec.{write, ◌>>=◌}
use kde_auth.Exec.Reads.{
  Reads, reads_rules, Reads-if_not_found, after_read, after_guard, if_not_found_value, query_value,
}
use kde_auth.Exec.Rules.{transaction_ok, pure_ok}
use kde_auth.Store.Accesses
use kde_auth.Store.Accesses.{access_to, refreshed, upserted}
use kde_auth.Store.Clients
use kde_auth.Store.Clients.{client_named}
use kde_auth.Store.Invites
use kde_auth.Store.Invites.{invite_hash, open_invite, use_invite}
use kde_auth.UseCase.Invites.{load_usable}
use kde_auth.UseCase.Register.{grant_access}

refreshed-access_to :
    (id client_id : String) (a : UserAppAccess) (rows : List UserAppAccess)
    → exists (access_to id client_id) rows ≡ true
    → exists (access_to id client_id) (update_where (access_to id client_id) (refreshed a) rows)
      ≡ true
refreshed-access_to id client_id a [] h = h
refreshed-access_to id client_id a (r ∷ rows) h = elim (Bool-cases (access_to id client_id r)) [
  | inl hit ↦ rw (hit, hit) refl
  | inr miss ↦
      let rest = refreshed-access_to id client_id a rows (ground (arith, miss)) in
      rw (miss, miss) rest
]

appended :
    (p : UserAppAccess → Bool) (a : UserAppAccess) (rows : List UserAppAccess)
    → p a ≡ true
    → exists p (rows ++ a ∷ []) ≡ true
appended p a [] h = rw h refl
appended p a (r ∷ rows) h = ground (arith, appended p a rows h)

-- Whoever it was before, the user has access after an upsert.
upserted-access_to :
    (a : UserAppAccess) (s : State)
    → exists (access_to a.user_id a.client_id) (upserted a s).accesses ≡ true
upserted-access_to a s = elim (Bool-cases (exists (access_to a.user_id a.client_id) s.accesses)) [
  | inl known ↦ rw known (refreshed-access_to a.user_id a.client_id a s.accesses known)
  | inr fresh ↦ rw fresh (
      appended (access_to a.user_id a.client_id) (record a { first_seen_at = a.last_seen_at })
        s.accesses (rw (str_eq_refl a.user_id, str_eq_refl a.client_id) refl))
]

upserted-invites : (a : UserAppAccess) (s : State) → (upserted a s).invites ≡ s.invites
upserted-invites a s = elim (Bool-cases (exists (access_to a.user_id a.client_id) s.accesses)) [
  | inl known ↦ rw known refl
  | inr fresh ↦ rw fresh refl
]

module _ (dep : Deployment) (at : Moment) where
  by_token_hash_row :
      (h : String) (s : State) (invite : Invite) (row : InviteRow) (email : String)
      → (Invites.by_token_hash dep at h s).0 ≡ ok invite
      → find (invite_hash h) s.invites ≡ some row
      → parse_email dep.library row.invite.email ≡ ok email
      → record row.invite { email = email } ≡ invite
  unfolding Invites.by_token_hash ◌>>=◌
  by_token_hash_row h s invite row email e found parsed = ground arith

  scan_invite_ok :
      (h : String) (s : State) (invite : Invite)
      → (Invites.by_token_hash dep at h s).0 ≡ ok invite
      → (row : InviteRow) × (find (invite_hash h) s.invites ≡ some row)
        × (parse_email dep.library row.invite.email ≡ ok invite.email)
        × (email : String) × (record row.invite { email = email } ≡ invite)
  unfolding Invites.by_token_hash ◌>>=◌
  scan_invite_ok h s invite e = elim (Option-cases (find (invite_hash h) s.invites)) [
    | inl missing ↦ absurd (ground arith)
    | inr (row, found) ↦ elim (Result-cases (parse_email dep.library row.invite.email)) [
      | inr (e', bad) ↦ absurd (ground arith)
      | inl (email, parsed) ↦
          let same = by_token_hash_row h s invite row email e found parsed in
          (row, found, parsed ∙ ap (λ (i : Invite). ok i.email) same, email, same)
    ]
  ]

  by_token_hash-Reads : (h : String) → Reads (Invites.by_token_hash dep at h)
  unfolding Invites.by_token_hash Invites.scan_invite
  by_token_hash-Reads h = search reads_rules depth 10

  client-Reads : (id : String) → Reads (Clients.by_client_id at id)
  unfolding Clients.by_client_id
  client-Reads id = search reads_rules

  client_value :
      (id : String) (s : State) (client : OauthClient)
      → (Clients.by_client_id at id s).0 ≡ ok client
      → find (client_named id) s.clients ≡ some client
  unfolding Clients.by_client_id
  client_value id s client h = query_value at clients_by_id _ s client h

  pub load_usable-Reads : (raw : String) → Reads (load_usable dep at raw)
  unfolding load_usable
  load_usable-Reads raw = search (reads_rules, by_token_hash-Reads, client-Reads) depth 12

  -- The row that an invite link stands for, and what its stored data are.
  pub record LoadedInvite (raw : String) (s : State) (invite : Invite) (client : OauthClient)
      : Type 0 where
    pub row : InviteRow
    pub row_known : find (invite_hash (dep.hash_token raw)) s.invites ≡ some row
    pub same_id : row.invite.id ≡ invite.id
    pub parsed : parse_email dep.library row.invite.email ≡ ok invite.email
    pub usable : is_usable row.invite at.now ≡ true
    pub client_known : find (client_named row.invite.client_id) s.clients ≡ some client

  pub load_usable_ok :
      (raw : String) (s t : State) (invite : Invite) (client : OauthClient)
      → load_usable dep at raw s ≡ (ok (invite, client), t)
      → LoadedInvite raw s invite client
  unfolding load_usable is_usable
  load_usable_ok raw s t invite client h = after_guard _ _ _ s h λ _ h₁.
      after_read _ _ s (Reads-if_not_found _ _ (by_token_hash-Reads _)) h₁ λ found e h₂.
        let (row, known, parsed, email, same) =
          scan_invite_ok (dep.hash_token raw) s found
            (if_not_found_value invalid_token _ s found e) in
        after_guard (is_usable found at.now) _ _ s h₂ λ usable h₃.
          after_read _ _ s (client-Reads found.client_id) h₃ λ app c h₄.
            let pair = (pure_ok (found, app) s h₄).0 in
            record {
              row = row;
              row_known = known;
              same_id = (λ i. (same i).id) ∙ (λ i. (pair i).0.id);
              parsed = parsed ∙ (λ i. ok (pair i).0.email);
              usable = subst (λ (x : Invite). is_usable x at.now ≡ true) (sym same) usable;
              client_known =
                  subst (λ (x : String × OauthClient). find (client_named x.0) s.clients ≡ some x.1)
                    ((λ i. ((sym same i).client_id, app))
                      ∙ (λ i. (row.invite.client_id, (pair i).1)))
                    (client_value found.client_id s app c);
            }

  pub grant_access_ok :
      (id client_id : String) (s t : State)
      → grant_access dep at id client_id s ≡ (ok tt, t)
      → (exists (access_to id client_id) t.accesses ≡ true) × (t.invites ≡ s.invites)
  unfolding grant_access Accesses.upsert ◌>>=◌
  grant_access_ok id client_id s t h =
      let access : UserAppAccess = record {
        user_id = id;
        client_id = client_id;
        entry_domain = "";
        first_seen_at = at.now;
        last_seen_at = at.now;
      } in
      let made =
        ap (λ p. p.1) (transaction_ok at accesses_upsert (write (upserted access)) s h).1 in
      (
        subst (λ (u : State). exists (access_to id client_id) u.accesses ≡ true) made
            (upserted-access_to access s),
        ap (λ (u : State). u.invites) (sym made) ∙ upserted-invites access s,
      )

  pub consume_ok :
      (id : String) (s t : State)
      → Invites.consume dep at id at.now s ≡ (ok tt, t)
      → (t.accesses ≡ s.accesses)
        × (t.invites
            ≡ update_where
                (λ r. open_invite id r && ltb at.now r.invite.expires_at)
                (use_invite at.now)
                s.invites)
  unfolding Invites.consume ◌>>=◌
  consume_ok id s t h = (ground arith, ground arith)

  pub usable-open :
      (row : InviteRow) (id : String)
      → row.invite.id ≡ id
      → is_usable row.invite at.now ≡ true
      → (open_invite id row && ltb at.now row.invite.expires_at) ≡ true
  unfolding is_usable
  usable-open row id same h =
      let reflexive : (row.invite.id == id) ≡ true =
        subst (λ (x : String). (row.invite.id == x) ≡ true) same (str_eq_refl row.invite.id) in
      ground (arith, reflexive)
