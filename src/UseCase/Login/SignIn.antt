-- ===== src/UseCase/Login/SignIn.antt =====
-- Signing in opens a session that resolves to the user.
use kde_auth.Prelude.{
  ℕ, ◌+◌, ◌<◌, String, ◌≡◌, ◌≢◌, str_ne, List, refl, sym, ap, ◌∙◌, subst, true, false, ◌&&◌, ◌++◌,
  [], ◌∷◌, none, some, inl, inr, Option-cases, find, exists, is_some, str_eq_refl, eq_iff, arith,
}
use kde_auth.Prelude.Rows.{find-append, find-holds}
use kde_auth.Domain.Errors.{Result, ok, invalid_credentials}
use kde_auth.Domain.Email.{parse_email}
use kde_auth.Domain.User.{User, can_authorize, can_authenticate, is_email_verified}
use kde_auth.Port.{Deployment, Moment, sessions_by_hash, users_by_id, users_by_email}
use kde_auth.State.{State, SessionRow}
use kde_auth.Exec.{if_not_found, ◌>>=◌}
use kde_auth.Exec.Rules.{pure_ok}
use kde_auth.Exec.Reads.{
  Reads, reads_rules, Reads-lift, Reads-or_error, after, after_read, after_guard, lift_value,
  query_value, if_not_found_value, or_error_value,
}
use kde_auth.Store.Users
use kde_auth.Store.Users.{has_id, user_by_email}
use kde_auth.Store.Sessions
use kde_auth.Store.Sessions.{session_hash, live_session}
use kde_auth.UseCase.Captcha.{verify_captcha}
use kde_auth.UseCase.Login.{
  LoginInput, LoginResult, authenticate, open_session, login, resolve_session,
}
use kde_auth.UseCase.Login.Resolution.{live_row, resolve_session-run}

no_live :
    (h : String) (now : ℕ) (rows : List SessionRow)
    → exists (session_hash h) rows ≡ false
    → find (λ r. session_hash h r && live_session now r) rows ≡ none
no_live h now [] e = refl
no_live h now (r ∷ rows) e = ground (arith, no_live h now rows)

module _ (dep : Deployment) (ttl : ℕ) (at : Moment) where
  authenticate-Reads : (input : LoginInput) → Reads (authenticate dep ttl at input)
  unfolding authenticate verify_captcha Users.by_email
  authenticate-Reads input = search reads_rules depth 16

  by_email-Reads :
      (email : String) → Reads (if_not_found invalid_credentials (Users.by_email dep at email))
  unfolding Users.by_email
  by_email-Reads email = search reads_rules

  by_email_ok :
      (email : String) (s : State) (user : User)
      → (if_not_found invalid_credentials (Users.by_email dep at email) s).0 ≡ ok user
      → user_by_email dep at email s ≡ some user
  unfolding Users.by_email
  by_email_ok email s user h =
      query_value at users_by_email _ s user (if_not_found_value invalid_credentials _ s user h)

  may_authorize :
      (user : User)
      → can_authenticate user ≡ ok tt
      → is_email_verified user ≡ true
      → can_authorize user ≡ ok tt
  unfolding can_authorize
  may_authorize user h v = ground (arith, h, v)

  authenticate_ok :
      (input : LoginInput) (s : State) (user : User) (t : State)
      → authenticate dep ttl at input s ≡ (ok user, t)
      → (email : String) × (parse_email dep.library input.email ≡ ok email)
        × (user_by_email dep at email s ≡ some user)
        × (dep.verify_password user.password_hash input.password ≡ true)
        × (can_authorize user ≡ ok tt)
  unfolding authenticate verify_captcha
  authenticate_ok input s user t h = after_read _ _ s (Reads-lift _) h λ _ _ h₁.
      after_read _ _ s (Reads-or_error _ _ (Reads-lift _)) h₁ λ email p h₂.
        after_guard _ _ _ s h₂ λ _ h₃. after_read _ _ s (by_email-Reads email) h₃ λ found u h₄.
          after_read _ _ s (Reads-or_error _ _ (Reads-lift _)) h₄ λ _ a h₅.
            after_guard (dep.verify_password found.password_hash input.password) _ _ s h₅ λ v h₆.
              after_guard (is_email_verified found) _ _ s h₆ λ e h₇.
                let same = (pure_ok found s h₇).0 in
                (
                  email,
                  lift_value _ s email (or_error_value _ _ s email p),
                  by_email_ok email s found u ∙ ap (λ (x : User). some x) same,
                  subst (λ (x : User). dep.verify_password x.password_hash input.password ≡ true)
                      same v,
                  subst (λ (x : User). can_authorize x ≡ ok tt) same
                      (may_authorize found (lift_value _ s tt (or_error_value _ _ s tt a)) e),
                )

  abbrev pub with_session : User → String → State → State
  with_session user raw s = record s {
    sessions =
        s.sessions
        ++ Sessions.session_row at
            (record { id = ""; user_id = user.id; expires_at = at.now + ttl }) (dep.hash_token raw)
          ∷ [];
  }

  open_session_ok :
      (user : User) (s s' : State) (res : LoginResult)
      → open_session dep ttl at user s ≡ (ok res, s')
      → (raw : String) × (at.random ≡ some raw)
        × (exists (session_hash (dep.hash_token raw)) s.sessions ≡ false)
        × (record { session_token = raw; expires_at = at.now + ttl; user = user } ≡ res)
        × (with_session user raw s ≡ s')
  unfolding open_session Sessions.create ◌>>=◌
  open_session_ok user s s' res h = elim (Option-cases at.random) [
    | inl missing ↦ absurd (ground arith)
    | inr (raw, drawn) ↦ (raw, drawn, ground arith, ground arith, ground arith)
  ]

  user_id_of :
      (email : String) (s : State) (user : User)
      → user_by_email dep at email s ≡ some user
      → find (has_id user.id) s.users ≡ some user
  user_id_of email s user h =
      elim (Option-cases
        (find (λ e. Users.has_address dep email e && is_some e.verified_at) s.emails)) [
          | inl missing ↦ absurd (ground arith)
          | inr (row, found) ↦
              let owned : find (has_id row.user_id) s.users ≡ some user = ground arith in
              subst (λ (id : String). find (has_id id) s.users ≡ some user)
                (sym
                  ((eq_iff user.id row.user_id).0 (find-holds (has_id row.user_id) s.users owned)))
                owned
        ]

  new_session-live :
      (later : Moment) (user : User) (raw : String) (s : State)
      → exists (session_hash (dep.hash_token raw)) s.sessions ≡ false
      → later.now < at.now + ttl
      → live_row dep later raw (with_session user raw s)
        ≡ some (
            Sessions.session_row at
              (record { id = ""; user_id = user.id; expires_at = at.now + ttl })
              (dep.hash_token raw))
  new_session-live later user raw s unused h =
      find-append (λ r. session_hash (dep.hash_token raw) r && live_session later.now r) s.sessions
        _
      ∙ ground (
        arith,
        no_live (dep.hash_token raw) later.now s.sessions unused,
        str_eq_refl (dep.hash_token raw),
      )

  -- A sign-in that succeeds was made with the password of the account that has the address as a
  -- verified one and may authorize; and its session token resolves to that account afterwards, as
  -- long as the session has not expired and the look-ups answer. The token must not be the empty
  -- text.
  pub login-resolve_session :
      (later : Moment) (input : LoginInput) (s s' : State) (res : LoginResult)
      → login dep ttl at input s ≡ (ok res, s')
      → res.session_token ≢ ""
      → later.now < at.now + ttl
      → later.fails sessions_by_hash ≡ false
      → later.fails users_by_id ≡ false
      → (email : String) × (parse_email dep.library input.email ≡ ok email)
        × (user_by_email dep at email s ≡ some res.user)
        × (dep.verify_password res.user.password_hash input.password ≡ true)
        × (can_authorize res.user ≡ ok tt)
        × (resolve_session dep later res.session_token s' ≡ (ok res.user, s'))
  unfolding login
  login-resolve_session later input s s' res h given soon f₁ f₂ = after _ _ s h λ user t a h₁'.
      let (email, parsed, owner, password, allowed) = authenticate_ok input s user t a in
      let h₁ =
        subst (λ (x : State). open_session dep ttl at user x ≡ (ok res, s'))
          (sym (ap (λ (x : Result User × State). x.1) a) ∙ (authenticate-Reads input).same s) h₁' in
      let (raw, drawn, unused, result, stored) = open_session_ok user s s' res h₁ in
      let resolved =
        resolve_session-run dep later raw (with_session user raw s)
          (Sessions.session_row at
            (record { id = ""; user_id = user.id; expires_at = at.now + ttl }) (dep.hash_token raw))
          user
          (str_ne raw "" λ e. given (sym (ap (λ (r : LoginResult). r.session_token) result) ∙ e)) f₁
          f₂ (new_session-live later user raw s unused soon) (user_id_of email s user owner)
          allowed in
      let same = ap (λ (r : LoginResult). r.user) result in
      (
        email,
        parsed,
        owner ∙ ap (λ (x : User). some x) same,
        subst (λ (x : User). dep.verify_password x.password_hash input.password ≡ true) same
            password,
        subst (λ (x : User). can_authorize x ≡ ok tt) same allowed,
        subst
            (λ (x : LoginResult × State).
              resolve_session dep later x.0.session_token x.1 ≡ (ok x.0.user, x.1))
            (λ i. (result i, stored i)) resolved,
      )
