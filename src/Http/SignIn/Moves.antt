-- ===== src/Http/SignIn/Moves.antt =====
-- What the check of a post does to the hits of an address and to its posts in flight.
use kde_auth.Prelude.{
  ℕ, suc, ◌+◌, ◌≤◌, ◌<◌, ◌≡◌, ◌⊎◌, refl, sym, ap, ◌∙◌, subst, String, Bool, true, false, [], ◌∷◌,
  not, concat, arith, Bool-cases, inl, inr, eq_iff, if◌then◌else◌,
}
use kde_auth.Port.{Moment}
use kde_auth.State.{State}
use kde_auth.RateLimit.{Limiter, too_many}
use kde_auth.RateLimit.Budget.{used, SameLimits, too_many-SameLimits, too_many-used, too_many-room}
use kde_auth.Http.{HttpRequest, Site, PageData, Response}
use kde_auth.Http.Handling.{World}
use kde_auth.Http.SignIn.Keys.{ip_given}
use kde_auth.Http.Address.{client_ip}
use kde_auth.Http.SignIn.{
  Checked, stopped, passed, ip_key, email_key, login_keys, login_check, page, too_many_page,
}
use kde_auth.Http.Replies.{bad_request}
use kde_auth.Http.SignIn.Traffic.{Traffic, admit, from, in_flight}

module _ {A : Type 0} (x y z : A) where
  unparsed : (b c : Bool) → b ≡ false → (if not b then x else if c then y else z) ≡ x
  unparsed b c h = rw h refl

  halted : (b c : Bool) → b ≡ true → c ≡ true → (if not b then x else if c then y else z) ≡ y
  halted b c h k = rw (h, k) refl

  let_pass : (b c : Bool) → b ≡ true → c ≡ false → (if not b then x else if c then y else z) ≡ z
  let_pass b c h k = rw (h, k) refl

-- The address uses no less, and has no more posts in flight; or a post enters, while there is room;
-- or a refused one leaves, and counts.
pub data Move (site : Site) (t₀ : ℕ) (key : String) (t t' : Traffic) : Bool → Type 0 where
  stays :
      used t₀ key t.world.1 ≤ used t₀ key t'.world.1
      → in_flight site key t' ≤ in_flight site key t
      → Move site t₀ key t t' false
  enters :
      used t₀ key t.world.1 < t.world.1.max
      → used t₀ key t'.world.1 ≡ used t₀ key t.world.1
      → in_flight site key t' ≡ suc (in_flight site key t)
      → Move site t₀ key t t' false
  leaves :
      used t₀ key t'.world.1 ≡ suc (used t₀ key t.world.1)
      → in_flight site key t ≡ suc (in_flight site key t')
      → Move site t₀ key t t' true

module _ (site : Site) (link at : Moment) (r : HttpRequest) (w : World) where
  abbrev checked : Limiter
  checked = (too_many w.1 at.now (login_keys site r)).1

  -- A check stops the post and leaves the world alone, or stops it because the limiter does, or
  -- lets it pass because the limiter does.
  login_check-cases :
      ((x : Response) × (login_check site link at r w ≡ (stopped x, w)))
      ⊎ (((x : Response) × (s : State) × (login_check site link at r w ≡ (stopped x, (s, checked))))
          ⊎ ((x : PageData) × (s : State) × ((too_many w.1 at.now (login_keys site r)).0 ≡ false)
              × (login_check site link at r w ≡ (passed x, (s, checked)))))
  unfolding login_check
  login_check-cases =
      let (data_of_page, s') = page site link (r.form "next") (r.form "email") w.0 in
      let x : Checked × World = (stopped bad_request, w) in
      let y : Checked × World = (stopped (too_many_page site data_of_page), (s', checked)) in
      let z : Checked × World = (passed data_of_page, (s', checked)) in
      let full = (too_many w.1 at.now (login_keys site r)).0 in
      elim (Bool-cases r.form_parses) [
        | inr unread ↦ inl (bad_request, unparsed x y z r.form_parses full unread)
        | inl parsed ↦ elim (Bool-cases full) [
          | inl block ↦ inr (
              inl
                (too_many_page site data_of_page, s', halted x y z r.form_parses full parsed block))
          | inr free ↦
              inr (inr (data_of_page, s', free, let_pass x y z r.form_parses full parsed free))
        ]
      ]

  -- Where the limiter lets the post pass, its address has used less than the limit.
  room :
      (t₀ : ℕ) (ip : String) (t : Traffic)
      → t.world ≡ w
      → at.now < t₀ + w.1.window
      → 1 ≤ w.1.max
      → (too_many w.1 at.now (login_keys site r)).0 ≡ false
      → from site (concat "ip:" ip) r ≡ true
      → used t₀ (concat "ip:" ip) t.world.1 < t.world.1.max
  room t₀ ip t same h on free ours =
      subst (λ (v : World). used t₀ (concat "ip:" ip) v.1 < v.1.max) (sym same)
        (subst (λ (k : String). used t₀ k w.1 < w.1.max)
          ((eq_iff (ip_key site r) (concat "ip:" ip)).0 ours)
          (too_many-room t₀ at.now (ip_key site r) w.1 (email_key site r ∷ []) h
            (ip_given (client_ip site r)) on free))

  pub admit-Move :
      (t₀ : ℕ) (ip : String) (t : Traffic)
      → t.world ≡ w
      → at.now < t₀ + w.1.window
      → 1 ≤ w.1.max
      → Move site t₀ (concat "ip:" ip) t (admit site r (login_check site link at r w) t) false
  admit-Move t₀ ip t same h on =
      let key = concat "ip:" ip in
      let kept = too_many-used t₀ at.now key w.1 (login_keys site r) h in
      let here = ap (λ (v : World). used t₀ key v.1) same in
      elim login_check-cases [
        | inl (x, e) ↦
            subst (λ c. Move site t₀ key t (admit site r c t) false) (sym e)
              (stays (ground (arith, here)) (omega arith))
        | inr (inl (x, s, e)) ↦
            subst (λ c. Move site t₀ key t (admit site r c t) false) (sym e)
              (stays (ground (arith, here, kept)) (omega arith))
        | inr (inr (x, s, free, e)) ↦
            subst (λ c. Move site t₀ key t (admit site r c t) false) (sym e)
              (elim (Bool-cases (from site key r)) [
                | inr other ↦ stays (ground (arith, here, kept)) (ground arith)
                | inl ours ↦
                    enters (room t₀ ip t same h on free ours) (kept ∙ sym here) (ground arith)
              ])
      ]

  pub admit-SameLimits :
      (t : Traffic)
      → t.world ≡ w
      → SameLimits (admit site r (login_check site link at r w) t).world.1 w.1
  admit-SameLimits t same =
      let kept = too_many-SameLimits w.1 at.now (login_keys site r) in
      let Same = λ (c : Checked × World). SameLimits (admit site r c t).world.1 w.1 in
      elim login_check-cases [
        | inl (x, e) ↦ subst Same (sym e) (refl, refl)
        | inr (inl (x, s, e)) ↦ subst Same (sym e) kept
        | inr (inr (x, s, free, e)) ↦ subst Same (sym e) kept
      ]
