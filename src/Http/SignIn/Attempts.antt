-- ===== src/Http/SignIn/Attempts.antt =====
-- How often passwords can be tried from one address.
use kde_auth.Prelude.{
  ℕ, suc, ◌+◌, ◌-◌, ◌≤◌, ◌≡◌, sym, subst, String, Bool, List, [], ◌∷◌, concat, All, arith,
  if◌then◌else◌,
}
use kde_auth.RateLimit.Budget.{used}
use kde_auth.Http.{Site}
use kde_auth.Http.Handling.{World}
use kde_auth.Http.SignIn.Moves.{Move, stays, enters, leaves}
use kde_auth.Http.SignIn.Steps.{step-Move, step-SameLimits}
use kde_auth.Http.SignIn.Traffic.{
  Traffic, Event, step, in_flight, refuses, refusals, FlightsUpTo, HappensWithin,
}

module _ (site : Site) (c t₀ : ℕ) (ip : String) where
  -- The refusals that can still come: of the posts in flight, and of those that the limiter lets pass.
  abbrev still_open : Traffic → ℕ
  still_open t =
      let f = in_flight site (concat "ip:" ip) t in
      f + (t.world.1.max + c - 1 - (used t₀ (concat "ip:" ip) t.world.1 + f))

  refusals_step :
      (t t' : Traffic) (refused : Bool) (n : ℕ)
      → Move site t₀ (concat "ip:" ip) t t' refused
      → t'.world.1.max ≡ t.world.1.max
      → 1 ≤ t.world.1.max
      → in_flight site (concat "ip:" ip) t' ≤ c
      → n ≤ still_open t'
      → (if refused then suc n else n) ≤ still_open t
  refusals_step t t' refused n (stays more fewer) same on few le =
      omega (arith, more, fewer, same, le)
  refusals_step t t' refused n (enters room kept entered) same on few le =
      omega (arith, room, kept, entered, same, few, le, on)
  refusals_step t t' refused n (leaves counted left_one) same on few le =
      omega (arith, counted, left_one, same, le)

  refusals_left :
      (events : List Event) (t : Traffic)
      → All (HappensWithin t₀ t.world.1.window) events
      → 1 ≤ t.world.1.max
      → FlightsUpTo site c (concat "ip:" ip) events t
      → refusals site (concat "ip:" ip) events t ≤ still_open t
  unfolding refusals FlightsUpTo
  refusals_left [] t h on few = omega arith
  refusals_left (e ∷ events) t h on few =
      let t' = step site e t in
      let (m, v) = step-SameLimits site e t in
      let rest =
        refusals_left events t' (subst (λ (n : ℕ). All (HappensWithin t₀ n) events) (sym v) h.1)
          (subst (λ (n : ℕ). 1 ≤ n) (sym m) on) few.1 in
      refusals_step t t' (refuses site (concat "ip:" ip) e t)
        (refusals site (concat "ip:" ip) events t') (step-Move site t₀ ip e t h.0 on) m on few.0
        rest

-- From a time when no post of the login form is in flight, however the steps of any number of posts
-- interleave, with each other and with
-- whatever else changes the database, no more posts from one address are refused for their
-- credentials within one window than the limit, which is not 0, and as many more as are in flight
-- at once besides the first: where posts of the address never overlap, no more than the limit.
-- A sign-in that succeeds in between does not give any back.
pub refusals_bounded :
    (site : Site) (c t₀ : ℕ) (ip : String) (events : List Event) (w : World)
    → 1 ≤ w.1.max
    → All (HappensWithin t₀ w.1.window) events
    → FlightsUpTo site c
        (concat "ip:" ip)
        events
        (record { world = w; running = []; answering = [] })
    → refusals site (concat "ip:" ip) events (record { world = w; running = []; answering = [] })
      ≤ w.1.max + c - 1
refusals_bounded site c t₀ ip events w on h few = omega (
  arith,
  refusals_left site c t₀ ip events (record { world = w; running = []; answering = [] }) h on few,
)
