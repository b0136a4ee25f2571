-- ===== src/Http/SignIn/Traffic.antt =====
-- internal/adapter/http/handler/login.go: any number of posts of the login form at once. A post has
-- three steps, each on the database and the limiter that the others have left: the check, the use
-- case, and the answer with Hit or Clear.
use kde_auth.Prelude.{
  ℕ, zero, suc, ◌+◌, ◌<◌, ◌≤◌, String, Bool, false, Option, none, some, List, [], ◌∷◌, ◌&&◌, ◌==◌,
  count_where, if◌then◌else◌,
}
use kde_auth.Domain.Errors.{Result, ok, err}
use kde_auth.Port.{Moment}
use kde_auth.State.{State}
use kde_auth.UseCase.Login.{LoginResult}
use kde_auth.Http.{HttpRequest, Site, PageData}
use kde_auth.Http.Handling.{World}
use kde_auth.Http.SignIn.{
  Checked, stopped, passed, ip_key, is_refusal, login_check, login_run, login_answer,
}

module _ {A : Type 0} where
  abbrev pub behind : A → Option (A × List A) → Option (A × List A)
  behind x none = none
  behind x (some (y, ys)) = some (y, x ∷ ys)

  -- The element at the position, and the others.
  abbrev pub take_out : ℕ → List A → Option (A × List A)
  take_out n [] = none
  take_out zero (x ∷ xs) = some (x, xs)
  take_out (suc n) (x ∷ xs) = behind x (take_out n xs)

-- A post whose use case runs, with its page; and one whose use case has returned.
abbrev pub Running : Type 0
Running = HttpRequest × PageData

abbrev pub Returned : Type 0
Returned = HttpRequest × PageData × Result LoginResult

-- The database and the limiter, the posts that the check let pass, and those of them whose use case
-- has returned.
pub record Traffic : Type 0 where
  pub world : World
  pub running : List Running
  pub answering : List Returned

-- A post arrives and is checked; the use case of one that runs returns; one that has returned is
-- answered; or anything else changes the database.
pub data Event : Type 0 where
  arrives : (link at : Moment) → HttpRequest → Event
  runs : Moment → ℕ → Event
  answers : Moment → ℕ → Event
  elsewhere : (State → State) → Event

-- A failure that counts against the limit.
abbrev pub counts : Result LoginResult → Bool
counts (ok _) = false
counts (err e) = is_refusal e

module _ (site : Site) where
  abbrev pub admit : HttpRequest → Checked × World → Traffic → Traffic
  admit r (stopped _, w) t = record t { world = w }
  admit r (passed data_of_page, w) t = record t {
    world = w;
    running = (r, data_of_page) ∷ t.running;
  }

  abbrev pub run_one : Moment → Option (Running × List Running) → Traffic → Traffic
  run_one at none t = t
  run_one at (some (waiting, rest)) t =
      let (result, s') = login_run site at waiting.0 t.world.0 in
      record {
        world = (s', t.world.1);
        running = rest;
        answering = (waiting.0, waiting.1, result) ∷ t.answering;
      }

  abbrev pub answer_one : Moment → Option (Returned × List Returned) → Traffic → Traffic
  answer_one at none t = t
  answer_one at (some (waiting, rest)) t = record t {
    world = (t.world.0, (login_answer site at waiting.0 waiting.1 t.world.1 waiting.2).1);
    answering = rest;
  }

  unfoldable pub step : Event → Traffic → Traffic
  step (arrives link at r) t = admit r (login_check site link at r t.world) t
  step (runs at n) t = run_one at (take_out n t.running) t
  step (answers at n) t = answer_one at (take_out n t.answering) t
  step (elsewhere change) t = record t { world = (change t.world.0, t.world.1) }

  abbrev pub from : String → HttpRequest → Bool
  from key r = ip_key site r == key

  -- The posts of an address that the check let pass and that are not answered yet.
  abbrev pub in_flight : String → Traffic → ℕ
  in_flight key t =
      count_where (λ x. from key x.0) t.running + count_where (λ x. from key x.0) t.answering

  abbrev pub is_refused : String → Option (Returned × List Returned) → Bool
  is_refused key none = false
  is_refused key (some (waiting, rest)) = from key waiting.0 && counts waiting.2

  -- The event answers a post of the address whose credentials were refused.
  abbrev pub refuses : String → Event → Traffic → Bool
  refuses key (answers at n) t = is_refused key (take_out n t.answering)
  refuses key _ t = false

  unfoldable pub refusals : String → List Event → Traffic → ℕ
  refusals key [] t = 0
  refusals key (e ∷ events) t =
      let rest = refusals key events (step e t) in if refuses key e t then suc rest else rest

  -- At no time are more posts of the address in flight than this.
  unfoldable pub FlightsUpTo : ℕ → String → List Event → Traffic → Type 0
  FlightsUpTo c key [] t = Unit {0}
  FlightsUpTo c key (e ∷ events) t =
      (in_flight key (step e t) ≤ c) × FlightsUpTo c key events (step e t)

-- The instant is inside the window that begins at `t₀`.
abbrev pub Within : ℕ → ℕ → Moment → Type 0
Within t₀ window at = (t₀ ≤ at.now) × (at.now < t₀ + window)

-- The steps on the limiter are.
abbrev pub HappensWithin : ℕ → ℕ → Event → Type 0
HappensWithin t₀ window (arrives link at r) = Within t₀ window at
HappensWithin t₀ window (answers at n) = Within t₀ window at
HappensWithin t₀ window _ = Unit {0}
