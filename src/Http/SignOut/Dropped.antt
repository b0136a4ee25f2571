-- ===== src/Http/SignOut/Dropped.antt =====
-- The end of a session, and where the client is sent then.
use kde_auth.Prelude.{
  ℕ, ◌≡◌, ◌⊎◌, refl, ap, ◌∙◌, String, true, false, some, none, is_some, List, [], ◌∷◌, ◌&&◌, not,
  ◌==◌, concat, find, update_where, inl, inr, Bool-cases, arith,
}
use kde_auth.Domain.Errors.{err, unauthorized, no_app_access}
use kde_auth.Domain.Client.{OauthClient, allows_redirect_uri}
use kde_auth.Port.{Deployment, Moment, sessions_revoke}
use kde_auth.State.{State, SessionRow}
use kde_auth.Exec.{◌>>=◌}
use kde_auth.Store.Clients
use kde_auth.Store.Clients.{client_named}
use kde_auth.Store.Sessions
use kde_auth.Store.Sessions.{session_hash, live_session, revoke_session}
use kde_auth.UseCase.Login.{logout, resolve_session}
use kde_auth.UseCase.Login.Resolution.{resolve_session-dead}
use kde_auth.UseCase.Authorize.{authorize}
use kde_auth.Http.{HttpRequest, Site, Response, cleared}
use kde_auth.Http.Handling.{call, branch}
use kde_auth.Http.Replies.{session_token}
use kde_auth.Http.SignOut.{
  login_url, authorize_input, authorize_failed, authorize_done, serve_authorize,
}

no_live_row :
    (h : String) (now later : ℕ) (rows : List SessionRow)
    → find
        (λ r. session_hash h r && live_session later r)
        (update_where
          (λ r. session_hash h r && not (is_some r.revoked_at))
          (revoke_session now)
          rows)
      ≡ none
no_live_row h now later [] = refl
no_live_row h now later (r ∷ rows) = ground (arith, no_live_row h now later rows)

module _ (dep : Deployment) (at later : Moment) where
  resolve_nothing :
      (token : String) (s : State)
      → (token == "") ≡ true
      → (resolve_session dep later token s).0 ≡ err unauthorized
  unfolding resolve_session ◌>>=◌
  resolve_nothing token s e = rw e refl

  logout-sessions :
      (token : String) (s : State)
      → (token == "") ≡ false
      → at.fails sessions_revoke ≡ false
      → (logout dep at token s).1.sessions
        ≡ update_where
            (λ r. session_hash (dep.hash_token token) r && not (is_some r.revoked_at))
            (revoke_session at.now)
            s.sessions
  unfolding logout Sessions.revoke ◌>>=◌
  logout-sessions token s e f = ground arith

  -- A session that was logged out resolves to nobody.
  logout-resolve_session :
      (token : String) (s : State)
      → at.fails sessions_revoke ≡ false
      → (resolve_session dep later token (logout dep at token s).1).0 ≡ err unauthorized
  logout-resolve_session token s f =
      let h = dep.hash_token token in
      elim (Bool-cases (token == "")) [
        | inl e ↦ resolve_nothing token (logout dep at token s).1 e
        | inr e ↦ resolve_session-dead dep later token (logout dep at token s).1 (
            ap (find (λ r. session_hash h r && live_session later.now r))
              (logout-sessions token s e f)
            ∙ no_live_row h at.now later.now s.sessions)
      ]

module _ (site : Site) (at : Moment) where
  -- The client that the request names is registered, with the URI it asks to return to.
  abbrev pub IsRegistered : HttpRequest → State → OauthClient → Type 0
  IsRegistered r s client =
      (find (client_named (r.query "client_id")) s.clients ≡ some client)
      × (allows_redirect_uri client (r.query "redirect_uri") ≡ true)

  -- Either the answer goes nowhere, or to the URI of a client that has it registered.
  abbrev Returns : HttpRequest → State → String × String → Type 0
  Returns r s p =
      (p ≡ ("", ""))
      ⊎ ((client : OauthClient) × IsRegistered r s client
          × (p ≡ (r.query "redirect_uri", client.android_package)))

  -- Where the authorization endpoint refuses an account without access to the application, it
  -- clears the cookie, sends the client to the sign-in page with the note, and the session resolves
  -- to nobody afterwards; the call that revokes it must go through.
  pub serve_authorize-no_app_access :
      (later : Moment) (r : HttpRequest) (s : State)
      → (authorize site.deployment at (authorize_input site r) s).0 ≡ err no_app_access
      → at.fails sessions_revoke ≡ false
      → let (reply, s') = serve_authorize site at r s in
        (reply.cookie ≡ cleared site.cookie_secure)
        × (reply.location ≡ concat (login_url site r) "&denied=1")
        × ((resolve_session site.deployment later (session_token r) s').0 ≡ err unauthorized)
  unfolding serve_authorize call
  serve_authorize-no_app_access later r s h f =
      let t = (authorize site.deployment at (authorize_input site r) s).1 in
      let run : serve_authorize site at r s ≡ authorize_failed site at r no_app_access t =
        λ i. branch (authorize_done site r) (authorize_failed site at r) (h i) t in
      (
        ap (λ (x : Response × State). x.0.cookie) run,
        ap (λ (x : Response × State). x.0.location) run,
        ap
              (λ (x : Response × State).
                (resolve_session site.deployment later (session_token r) x.1).0)
              run
            ∙ logout-resolve_session site.deployment at later (session_token r) t f,
      )
