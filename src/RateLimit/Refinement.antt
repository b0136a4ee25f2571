-- ===== src/RateLimit/Refinement.antt =====
-- Any history of calls is answered as the log answers it.
use kde_auth.Prelude.{
  ℕ, ◌≤◌, ◌≡◌, refl, sym, ◌∙◌, subst, String, Bool, false, List, [], ◌∷◌, ◌==◌, leb, length, arith,
  Bool-cases, inl, inr,
}
use kde_auth.RateLimit.{
  Limiter, hits_of, drop_old, pruned, too_many, too_many_from, hit, hit_one, hit_from, clear,
}
use kde_auth.RateLimit.Laws.{recent, drop_old-recent}
use kde_auth.RateLimit.Log.{
  Log, log_hit, log_hits, log_clear, log_full, Tracks, later-Tracks, pruned-Tracks, hit_one-Tracks,
  clear-Tracks,
}

-- The calls of the limiter; the first two read the clock.
pub data Call : Type 0 where
  ask hits : (now : ℕ) → List String → Call
  clearing : List String → Call

-- The answers of TooMany, one after the other.
pub run : List Call → Limiter → List Bool
run [] l = []
run (ask now keys ∷ calls) l = let (full, l') = too_many l now keys in full ∷ run calls l'
run (hits now keys ∷ calls) l = run calls (hit l now keys)
run (clearing keys ∷ calls) l = run calls (clear l keys)

pub run_log : (max window : ℕ) → List Call → Log → List Bool
run_log max window [] log = []
run_log max window (ask now keys ∷ calls) log =
    log_full max window now keys log ∷ run_log max window calls log
run_log max window (hits now keys ∷ calls) log = run_log max window calls (log_hits now keys log)
run_log max window (clearing keys ∷ calls) log = run_log max window calls (log_clear keys log)

-- The clock does not go back.
abbrev pub InTime : ℕ → List Call → Type 0
InTime t [] = Unit
InTime t (ask now keys ∷ calls) = (t ≤ now) × InTime now calls
InTime t (hits now keys ∷ calls) = (t ≤ now) × InTime now calls
InTime t (clearing keys ∷ calls) = InTime t calls

limited : (n : ℕ) → 1 ≤ n → leb n 0 ≡ false
limited n h = ground arith

module _ {max window t : ℕ} where
  hit_from-Tracks :
      (l : Limiter) (log : Log) (keys : List String)
      → Tracks max window t l log
      → Tracks max window t (hit_from l t keys) (log_hits t keys log)
  unfolding hit_from
  hit_from-Tracks l log [] T = T
  hit_from-Tracks l log (key ∷ keys) T =
      hit_from-Tracks (hit_one l t key) (log_hit t key log) keys (hit_one-Tracks l key T)

  hit-Tracks :
      (l : Limiter) (log : Log) (keys : List String)
      → 1 ≤ max
      → Tracks max window t l log
      → Tracks max window t (hit l t keys) (log_hits t keys log)
  unfolding hit
  hit-Tracks l log keys on T =
      rw (limited l.max (subst (λ (n : ℕ). 1 ≤ n) (sym T.same_max) on))
        (hit_from-Tracks l log keys T)

  -- The test of the code is the test on the log.
  full_test :
      (l : Limiter) (log : Log) (key : String)
      → Tracks max window t l log
      → leb l.max (length (drop_old l.window t (hits_of key l.hits)))
        ≡ leb max (length (recent window t (log key)))
  full_test l log key T =
      let kept =
        drop_old-recent l.window t (hits_of key l.hits) (T.past key).0
        ∙ subst (λ (w : ℕ). recent w t (hits_of key l.hits) ≡ recent window t (log key))
            (sym T.same_window) (T.same key t (omega arith)) in
      λ i. leb (T.same_max i) (length (kept i))

  asked-Tracks :
      (l : Limiter) (log : Log) (keys : List String)
      → Tracks max window t l log
      → ((too_many_from l t keys).0 ≡ log_full max window t keys log)
        × Tracks max window t (too_many_from l t keys).1 log
  unfolding too_many_from
  asked-Tracks l log [] T = (refl, T)
  asked-Tracks l log (key ∷ keys) T = elim (Bool-cases (key == "")) [
    | inl empty ↦ rw empty (asked-Tracks l log keys T)
    | inr given ↦
        let test = full_test l log key T in
        elim (Bool-cases (leb max (length (recent window t (log key))))) [
          | inl full ↦ rw (given, test ∙ full, full) (refl, pruned-Tracks l key T)
          | inr room ↦
              rw (given, test ∙ room, room)
                (asked-Tracks (pruned l key t).1 log keys (pruned-Tracks l key T))
        ]
  ]

  too_many-Tracks :
      (l : Limiter) (log : Log) (keys : List String)
      → 1 ≤ max
      → Tracks max window t l log
      → ((too_many l t keys).0 ≡ log_full max window t keys log)
        × Tracks max window t (too_many l t keys).1 log
  unfolding too_many
  too_many-Tracks l log keys on T =
      rw (limited l.max (subst (λ (n : ℕ). 1 ≤ n) (sym T.same_max) on)) (asked-Tracks l log keys T)

module _ {max window : ℕ} where
  -- A limiter that tells as much as a log answers every later history of calls as the log does: too
  -- many for some key of a call exactly where the hits of that key inside the window, since it was
  -- last cleared, reach the limit. The clock must not go back, and the limit not be 0.
  pub run-run_log :
      (calls : List Call) (t : ℕ) (l : Limiter) (log : Log)
      → 1 ≤ max
      → InTime t calls
      → Tracks max window t l log
      → run calls l ≡ run_log max window calls log
  unfolding run run_log
  run-run_log [] t l log on h T = refl
  run-run_log (ask now keys ∷ calls) t l log on h T =
      let (same, next) = too_many-Tracks l log keys on (later-Tracks l now h.0 T) in
      λ i. same i ∷ run-run_log calls now (too_many l now keys).1 log on h.1 next i
  run-run_log (hits now keys ∷ calls) t l log on h T =
      run-run_log calls now (hit l now keys) (log_hits now keys log) on h.1
        (hit-Tracks l log keys on (later-Tracks l now h.0 T))
  run-run_log (clearing keys ∷ calls) t l log on h T =
      run-run_log calls t (clear l keys) (log_clear keys log) on h (clear-Tracks l keys T)

-- A new limiter tells as much as the empty log.
pub new-Tracks :
    (max window : ℕ)
    → Tracks max window 0 (record { max = max; window = window; hits = [] }) (λ k. [])
unfolding hits_of
new-Tracks max window = record {
  same_max = refl;
  same_window = refl;
  past = λ k. (tt, tt);
  same = λ k now g. refl;
}
