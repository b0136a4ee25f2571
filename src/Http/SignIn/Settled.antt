-- ===== src/Http/SignIn/Settled.antt =====
-- What the answer to a post of the login form makes of the limiter.
use kde_auth.Prelude.{
  ℕ, suc, ◌≤◌, ◌≡◌, refl, sym, subst, String, true, [], ◌∷◌, ◌==◌, concat, arith, Bool-cases, inl,
  inr, ne_of_test, suc, eq_iff, if◌then◌else◌,
}
use kde_auth.Domain.Errors.{Result, ok, err}
use kde_auth.Port.{Moment}
use kde_auth.RateLimit.{Limiter, hit, clear}
use kde_auth.RateLimit.Budget.{
  used, SameLimits, hit-SameLimits, clear-SameLimits, hit-used, hit-used_other, clear-used,
}
use kde_auth.UseCase.Login.{LoginResult}
use kde_auth.Http.{HttpRequest, Site, PageData}
use kde_auth.Http.SignIn.Keys.{email-ip, ip_given, email_given}
use kde_auth.Http.Address.{client_ip}
use kde_auth.Http.SignIn.Traffic.{counts, Within}
use kde_auth.Http.SignIn.{ip_key, email_key, login_keys, is_refusal, login_answer}

module _ (site : Site) (at : Moment) (r : HttpRequest) where
  -- The limiter after the answer.
  abbrev pub settled : Limiter → Result LoginResult → Limiter
  settled l (ok _) = clear l (email_key site r ∷ [])
  settled l (err e) = if is_refusal e then hit l at.now (login_keys site r) else l

  pub login_answer-limiter :
      (data_of_page : PageData) (l : Limiter) (result : Result LoginResult)
      → (login_answer site at r data_of_page l result).1 ≡ settled l result
  login_answer-limiter data_of_page l (ok _) = refl
  login_answer-limiter data_of_page l (err e) = refl

  pub settled-SameLimits :
      (l : Limiter) (result : Result LoginResult) → SameLimits (settled l result) l
  settled-SameLimits l (ok _) = clear-SameLimits l (email_key site r ∷ [])
  settled-SameLimits l (err e) = elim (Bool-cases (is_refusal e)) [
    | inl counted ↦ rw counted (hit-SameLimits l at.now (login_keys site r))
    | inr free ↦ rw free (refl, refl)
  ]

  hit_keys-used :
      (t₀ : ℕ) (ip : String) (l : Limiter)
      → Within t₀ l.window at
      → 1 ≤ l.max
      → used t₀ (concat "ip:" ip) l ≤ used t₀ (concat "ip:" ip) (hit l at.now (login_keys site r))
  hit_keys-used t₀ ip l h on =
      let key = concat "ip:" ip in
      let email = email_key site r in
      let e = email_given (site.to_lower (site.trim_space (r.form "email"))) in
      let apart = email-ip ip (site.to_lower (site.trim_space (r.form "email"))) in
      elim (Bool-cases (ip_key site r == key)) [
        | inl same ↦
            subst (λ (k : String). used t₀ key l ≤ used t₀ key (hit l at.now (k ∷ email ∷ [])))
              (sym ((eq_iff (ip_key site r) key).0 same))
              (ground (arith, hit-used t₀ at.now key l email h.0 h.1 (ip_given ip) e apart on))
        | inr other ↦ ground (
          arith,
          hit-used_other t₀ at.now key l (ip_key site r) email (ip_given (client_ip site r)) e
              (ne_of_test _ _ other) apart,
        )
      ]

  pub settled-used :
      (t₀ : ℕ) (ip : String) (l : Limiter) (result : Result LoginResult)
      → Within t₀ l.window at
      → 1 ≤ l.max
      → used t₀ (concat "ip:" ip) l ≤ used t₀ (concat "ip:" ip) (settled l result)
  settled-used t₀ ip l (ok _) h on =
      let address = site.to_lower (site.trim_space (r.form "email")) in
      ground (
        arith,
        clear-used t₀ at.now (concat "ip:" ip) l (concat "email:" address) (email-ip ip address),
      )
  settled-used t₀ ip l (err e) h on = elim (Bool-cases (is_refusal e)) [
    | inl counted ↦ rw counted (hit_keys-used t₀ ip l h on)
    | inr free ↦ rw free (omega arith)
  ]

  -- A sign-in whose credentials are refused counts for its address.
  pub settled_refused :
      (t₀ : ℕ) (l : Limiter) (result : Result LoginResult)
      → Within t₀ l.window at
      → 1 ≤ l.max
      → counts result ≡ true
      → used t₀ (ip_key site r) (settled l result) ≡ suc (used t₀ (ip_key site r) l)
  settled_refused t₀ l (ok _) h on c = absurd (ground (arith, c))
  settled_refused t₀ l (err e) h on c =
      let address = site.to_lower (site.trim_space (r.form "email")) in
      let ip = client_ip site r in
      rw c (
        hit-used t₀ at.now (concat "ip:" ip) l (concat "email:" address) h.0 h.1 (ip_given ip)
          (email_given address) (email-ip ip address) on)
