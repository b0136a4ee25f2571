-- ===== src/Http/Tokens/Grants.antt =====
-- What the token endpoint and the password endpoint answer with.
use kde_auth.Prelude.{
  ◌≡◌, refl, sym, ap, ◌∙◌, subst, String, Option, some, none, not, inl, inr, Bool-cases, arith,
  if◌then◌else◌,
}
use kde_auth.Domain.Errors.{Error, unauthorized}
use kde_auth.Port.{Moment}
use kde_auth.State.{State}
use kde_auth.UseCase.Exchange.{exchange_token}
use kde_auth.UseCase.Passwords.{change_password}
use kde_auth.UseCase.Passwords.Revocation.{change_password-SignedOut}
use kde_auth.UseCase.SignedOut.{SignedOut}
use kde_auth.Http.{HttpRequest, Site, Response, json}
use kde_auth.Http.Handling.{Handler, respond, call}
use kde_auth.Http.Handling.Answers.{call-cases}
use kde_auth.Http.Replies.{write_json, write_error, method_not_allowed}
use kde_auth.Http.Replies.Statuses.{write_error-status}
use kde_auth.Http.Tokens.{
  is_post, fail, done, with_subject, with_json, token_input, token_body, subject, change_input,
  serve_change_password,
}

module _ (site : Site) (at : Moment) where
  fail-not_ok : (e : Error) → (write_error e).status ≡ 200 → ⊥
  fail-not_ok e h = omega (arith, h, (write_error-status e).0)

  abbrev token_answer : HttpRequest → Handler
  token_answer r =
      call (exchange_token site.deployment at (token_input site r))
        (λ result. respond (write_json 200 (token_body site result))) fail

  -- The steps of a password change, once the request is a POST with a bearer token and a body.
  change_answer-SignedOut :
      (id : String) (body : String → String) (s : State)
      → let answer =
          call
            (change_password site.deployment at (change_input site id body))
            (done site)
            fail
            s in
        answer.0.status ≡ 200 → SignedOut id answer.1
  change_answer-SignedOut id body s h =
      let input = change_input site id body in
      elim (call-cases (change_password site.deployment at input) (done site) fail s) [
        | inl (_, e, a) ↦
            subst (SignedOut id) (sym (ap (λ (x : Response × State). x.1) a))
              (change_password-SignedOut site.deployment at input s _ e).4
        | inr (e, _, a) ↦
            absurd (fail-not_ok e (sym (ap (λ (x : Response × State). x.0.status) a) ∙ h))
      ]

  abbrev change_answer : Option String → Option (String → String) → Handler
  change_answer id body = with_subject id (λ id. with_json body (λ body.
      call (change_password site.deployment at (change_input site id body)) (done site) fail))

  change_answer-subject :
      (id : Option String) (body : Option (String → String)) (s : State)
      → (change_answer id body s).0.status ≡ 200
      → (user : String) × (id ≡ some user) × SignedOut user (change_answer id body s).1
  unfolding write_json
  change_answer-subject none body s h = absurd (fail-not_ok unauthorized h)
  change_answer-subject (some id) none s h = absurd (ground arith)
  change_answer-subject (some id) (some body) s h = (id, refl, change_answer-SignedOut id body s h)

  -- Where the password endpoint answers with the status 200, the request carried a bearer token
  -- that names a user, and afterwards every session and every refresh token of that user is
  -- revoked.
  pub serve_change_password-SignedOut :
      (r : HttpRequest) (s : State)
      → (serve_change_password site at r s).0.status ≡ 200
      → (id : String) × (subject site at r ≡ some id)
        × SignedOut id (serve_change_password site at r s).1
  unfolding serve_change_password
  serve_change_password-SignedOut r s h = elim (Bool-cases (is_post r.method)) [
    | inr other ↦ absurd (ground (arith, h, other))
    | inl posted ↦
        let run : serve_change_password site at r s ≡ change_answer (subject site at r) r.json s =
          λ i.
            if not (posted i)
            then (method_not_allowed, s)
            else change_answer (subject site at r) r.json s in
        let (id, named, out) =
          change_answer-subject (subject site at r) r.json s
            (sym (ap (λ (x : Response × State). x.0.status) run) ∙ h) in
        (id, named, subst (SignedOut id) (sym (ap (λ (x : Response × State). x.1) run)) out)
  ]
