-- ===== src/Http/SignIn/Steps.antt =====
-- What one event of the traffic of sign-ins does to the hits of an address and to its posts in
-- flight.
use kde_auth.Prelude.{
  ℕ, zero, suc, ◌≤◌, ◌≡◌, refl, sym, ap, ◌∙◌, subst, String, Bool, false, Option, some, List, [],
  ◌∷◌, ◌&&◌, concat, arith, Bool-cases, Option-cases, inl, inr, eq_iff, count_where, if◌then◌else◌,
}
use kde_auth.Port.{Moment}
use kde_auth.RateLimit.{Limiter}
use kde_auth.RateLimit.Budget.{used, SameLimits}
use kde_auth.Http.{Site}
use kde_auth.Http.SignIn.{ip_key, login_answer}
use kde_auth.Http.SignIn.Settled.{
  settled, login_answer-limiter, settled-SameLimits, settled-used, settled_refused,
}
use kde_auth.Http.SignIn.Traffic.{
  Traffic, Running, Returned, Event, arrives, runs, answers, elsewhere, take_out, counts, run_one,
  answer_one, step, from, is_refused, refuses, HappensWithin, Within,
}
use kde_auth.Http.SignIn.Moves.{Move, stays, leaves, admit-Move, admit-SameLimits}

module _ {A : Type 0} (p : A → Bool) where
  take_out-count :
      (n : ℕ) (xs : List A) (y : A) (ys : List A)
      → take_out n xs ≡ some (y, ys)
      → count_where p xs ≡ (if p y then suc (count_where p ys) else count_where p ys)
  take_out-count n [] y ys h = absurd (ground arith)
  take_out-count zero (x ∷ xs) y ys h =
      let same : x ≡ y = ground arith in
      let same' : xs ≡ ys = ground arith in
      λ i. if p (same i) then suc (count_where p (same' i)) else count_where p (same' i)
  take_out-count (suc n) (x ∷ xs) y ys h = elim (Option-cases (take_out n xs)) [
    | inl missing ↦ absurd (ground arith)
    | inr ((z, zs), found) ↦
        let rest = take_out-count n xs z zs found in
        let same : z ≡ y = ground arith in
        let same' : x ∷ zs ≡ ys = ground arith in
        ground (arith, rest)
        ∙ (λ i. if p (same i) then suc (count_where p (same' i)) else count_where p (same' i))
  ]

module _ (site : Site) (at : Moment) (t : Traffic) where
  -- The answer leaves the limiter as `settled` has it.
  answered :
      (x : Returned)
      → (login_answer site at x.0 x.1 t.world.1 x.2).1 ≡ settled site at x.0 t.world.1 x.2
  answered x = login_answer-limiter site at x.0 x.1 t.world.1 x.2

  answer-Move :
      (t₀ : ℕ) (ip : String) (x : Returned) (rest : List Returned)
      → Within t₀ t.world.1.window at
      → 1 ≤ t.world.1.max
      → ((p : Returned → Bool)
          → count_where p t.answering
            ≡ (if p x then suc (count_where p rest) else count_where p rest))
      → Move site t₀
          (concat "ip:" ip)
          t
          (answer_one site at (some (x, rest)) t)
          (from site (concat "ip:" ip) x.0 && counts x.2)
  answer-Move t₀ ip x rest h on taken =
      let key = concat "ip:" ip in
      let fewer = taken (λ y. from site key y.0) in
      let lim = ap (used t₀ key) (answered x) in
      let grows = settled-used site at x.0 t₀ ip t.world.1 x.2 h on in
      let both = λ (b : Bool). b && counts x.2 in
      let Goal = λ (b : Bool). Move site t₀ key t (answer_one site at (some (x, rest)) t) b in
      elim (Bool-cases (from site key x.0)) [
        | inr other ↦
            subst Goal (sym (ap both other))
              (stays (ground (arith, lim, grows)) (ground (arith, fewer)))
        | inl ours ↦ elim (Bool-cases (counts x.2)) [
          | inr free ↦
              subst Goal (sym (ap both ours ∙ free))
                (stays (ground (arith, lim, grows)) (ground (arith, fewer)))
          | inl counted ↦
              let more =
                subst
                  (λ (k : String).
                    used t₀ k (settled site at x.0 t.world.1 x.2) ≡ suc (used t₀ k t.world.1))
                  ((eq_iff (ip_key site x.0) key).0 ours)
                  (settled_refused site at x.0 t₀ t.world.1 x.2 h on counted) in
              subst Goal (sym (ap both ours ∙ counted))
                (leaves (lim ∙ more) (ground (arith, fewer)))
        ]
      ]

  answer-SameLimits :
      (x : Returned) (rest : List Returned)
      → SameLimits (answer_one site at (some (x, rest)) t).world.1 t.world.1
  answer-SameLimits x rest =
      subst (λ (l : Limiter). SameLimits l t.world.1) (sym (answered x))
        (settled-SameLimits site at x.0 t.world.1 x.2)

module _ (site : Site) (t₀ : ℕ) (ip : String) where
  pub step-Move :
      (e : Event) (t : Traffic)
      → HappensWithin t₀ t.world.1.window e
      → 1 ≤ t.world.1.max
      → Move site t₀ (concat "ip:" ip) t (step site e t) (refuses site (concat "ip:" ip) e t)
  unfolding step
  step-Move (arrives link at r) t h on = admit-Move site link at r t.world t₀ ip t refl h.1 on
  step-Move (runs at n) t h on =
      let Goal = λ (o : Option (Running × List Running)).
        Move site t₀ (concat "ip:" ip) t (run_one site at o t) false in
      elim (Option-cases (take_out n t.running)) [
        | inl missing ↦ subst Goal (sym missing) (stays (omega arith) (omega arith))
        | inr ((x, rest), found) ↦
            let fewer =
              take_out-count (λ y. from site (concat "ip:" ip) y.0) n t.running x rest found in
            subst Goal (sym found) (stays (omega arith) (ground (arith, fewer)))
      ]
  step-Move (answers at n) t h on =
      let key = concat "ip:" ip in
      let Goal = λ (o : Option (Returned × List Returned)).
        Move site t₀ key t (answer_one site at o t) (is_refused site key o) in
      elim (Option-cases (take_out n t.answering)) [
        | inl missing ↦ subst Goal (sym missing) (stays (omega arith) (omega arith))
        | inr ((x, rest), found) ↦ subst Goal (sym found) (
            answer-Move site at t t₀ ip x rest h on
              (λ p. take_out-count p n t.answering x rest found))
      ]
  step-Move (elsewhere change) t h on = stays (omega arith) (omega arith)

pub step-SameLimits :
    (site : Site) (e : Event) (t : Traffic) → SameLimits (step site e t).world.1 t.world.1
unfolding step
step-SameLimits site (arrives link at r) t = admit-SameLimits site link at r t.world t refl
step-SameLimits site (runs at n) t =
    let Goal =
      λ (o : Option (Running × List Running)). SameLimits (run_one site at o t).world.1 t.world.1 in
    elim (Option-cases (take_out n t.running)) [
      | inl missing ↦ subst Goal (sym missing) (refl, refl)
      | inr ((x, rest), found) ↦ subst Goal (sym found) (refl, refl)
    ]
step-SameLimits site (answers at n) t =
    let Goal = λ (o : Option (Returned × List Returned)).
      SameLimits (answer_one site at o t).world.1 t.world.1 in
    elim (Option-cases (take_out n t.answering)) [
      | inl missing ↦ subst Goal (sym missing) (refl, refl)
      | inr ((x, rest), found) ↦ subst Goal (sym found) (answer-SameLimits site at t x rest)
    ]
step-SameLimits site (elsewhere change) t = (refl, refl)
