-- ===== src/RateLimit/Log.antt =====
-- The limiter as a log: what it promises is told by every hit since the key was last cleared.
use kde_auth.Prelude.{
  if_holds, ℕ, ◌+◌, ◌≤◌, ◌≡◌, refl, sym, ap, ◌∙◌, subst, String, Bool, true, false, List, [], ◌∷◌,
  ◌++◌, ◌==◌, leb, length, All, exists, arith, Bool-cases, inl, inr, ne_of_test, eq_iff,
  if◌then◌else◌,
}
use kde_auth.RateLimit.{Limiter, hits_of, drop_old, pruned, hit_one, clear}
use kde_auth.RateLimit.Laws.{recent, IsOrdered, pruned-hits_of, hit_one-hits_of, clear-hits_of}
use kde_auth.RateLimit.Budget.{pruned-SameLimits, hit_one-SameLimits, clear-SameLimits}

-- Every hit of a key, in order.
abbrev pub Log : Type 0
Log = String → List ℕ

abbrev pub log_hit : ℕ → String → Log → Log
log_hit now key log k = if key == "" then log k else if key == k then log k ++ now ∷ [] else log k

abbrev pub log_hits : ℕ → List String → Log → Log
log_hits now [] log = log
log_hits now (key ∷ keys) log = log_hits now keys (log_hit now key log)

abbrev pub log_clear : List String → Log → Log
log_clear keys log k = if exists (λ key. key == k) keys then [] else log k

-- Some key has as many hits inside the window as the limit.
abbrev pub log_full : (max window now : ℕ) → List String → Log → Bool
log_full max window now [] log = false
log_full max window now (key ∷ keys) log =
    let rest = log_full max window now keys log in
    if key == ""
    then rest
    else if leb max (length (recent window now (log key)))
    then true
    else rest

recent-drop_old :
    (window t now : ℕ) (ts : List ℕ)
    → t ≤ now
    → recent window now (drop_old window t ts) ≡ recent window now ts
unfolding drop_old
recent-drop_old window t now [] h = refl
recent-drop_old window t now (u ∷ ts) h = elim (Bool-cases (leb (u + window) t)) [
  | inl old ↦ ground (arith, recent-drop_old window t now ts h)
  | inr new ↦ ground arith
]

recent-append :
    (window now : ℕ) (ts us : List ℕ)
    → recent window now (ts ++ us) ≡ recent window now ts ++ recent window now us
recent-append window now [] us = refl
recent-append window now (t ∷ ts) us = ground (arith, recent-append window now ts us)

-- Ordered, and no later than the instant.
abbrev pub IsPast : ℕ → List ℕ → Type 0
IsPast t ts = IsOrdered ts × All (λ u. u ≤ t) ts

All-le : (t now : ℕ) (ts : List ℕ) → t ≤ now → All (λ u. u ≤ t) ts → All (λ u. u ≤ now) ts
All-le t now [] h a = tt
All-le t now (u ∷ ts) h a = (omega (arith, h, a.0), All-le t now ts h a.1)

drop_old-IsPast : (window now t : ℕ) (ts : List ℕ) → IsPast t ts → IsPast t (drop_old window now ts)
unfolding drop_old
drop_old-IsPast window now t [] p = p
drop_old-IsPast window now t (u ∷ ts) p = elim (Bool-cases (leb (u + window) now)) [
  | inl old ↦ rw (old, drop_old) (drop_old-IsPast window now t ts (p.0.1, p.1.1))
  | inr new ↦ rw (new, drop_old) p
]

All-append_one : (P : ℕ → Type 0) (ts : List ℕ) (u : ℕ) → All P ts → P u → All P (ts ++ u ∷ [])
All-append_one P [] u a p = (p, tt)
All-append_one P (t ∷ ts) u a p = (a.0, All-append_one P ts u a.1 p)

IsOrdered-append :
    (ts : List ℕ) (now : ℕ) → IsOrdered ts → All (λ u. u ≤ now) ts → IsOrdered (ts ++ now ∷ [])
IsOrdered-append [] now o a = (tt, tt)
IsOrdered-append (t ∷ ts) now o a =
    (All-append_one (λ u. t ≤ u) ts now o.0 a.0, IsOrdered-append ts now o.1 a.1)

append-IsPast : (ts : List ℕ) (now : ℕ) → IsPast now ts → IsPast now (ts ++ now ∷ [])
append-IsPast ts now p =
    (IsOrdered-append ts now p.0 p.1, All-append_one (λ u. u ≤ now) ts now p.1 (omega arith))

-- The limiter at the instant `t` tells as much as the log.
pub record Tracks (max window t : ℕ) (l : Limiter) (log : Log) : Type 0 where
  pub same_max : l.max ≡ max
  pub same_window : l.window ≡ window
  pub past : (k : String) → IsPast t (hits_of k l.hits)
  pub same :
      (k : String) (now : ℕ)
      → t ≤ now
      → recent window now (hits_of k l.hits) ≡ recent window now (log k)

hit_one-empty : (l : Limiter) (t : ℕ) (key : String) → (key == "") ≡ true → hit_one l t key ≡ l
unfolding hit_one
hit_one-empty l t key e = rw e refl

log_hit-empty : (t : ℕ) (key : String) (log : Log) → (key == "") ≡ true → log_hit t key log ≡ log
log_hit-empty t key log e =
    λ i k. if e i then log k else if key == k then log k ++ t ∷ [] else log k

module _ {max window t : ℕ} {log : Log} where
  -- Time passes.
  pub later-Tracks :
      (l : Limiter) (now : ℕ) → t ≤ now → Tracks max window t l log → Tracks max window now l log
  later-Tracks l now h T = record {
    same_max = T.same_max;
    same_window = T.same_window;
    past = λ k. ((T.past k).0, All-le t now (hits_of k l.hits) h (T.past k).1);
    same = λ k u g. T.same k u (omega (arith, h, g));
  }

  -- What is left of the hits of a key after the instant, as the log has them.
  dropped-log :
      (l : Limiter) (key k : String) (now : ℕ)
      → Tracks max window t l log
      → t ≤ now
      → (key == k) ≡ true
      → recent window now (drop_old l.window t (hits_of key l.hits)) ≡ recent window now (log k)
  dropped-log l key k now T g e =
      subst
        (λ (w : ℕ).
          recent window now (drop_old w t (hits_of key l.hits)) ≡ recent window now (log k))
        (sym T.same_window)
        (recent-drop_old window t now (hits_of key l.hits) g
          ∙ T.same key now g
          ∙ ap (λ (j : String). recent window now (log j)) ((eq_iff key k).0 e))

  pub pruned-Tracks :
      (l : Limiter) (key : String)
      → Tracks max window t l log
      → Tracks max window t (pruned l key t).1 log
  pruned-Tracks l key T =
      let (m, w) = pruned-SameLimits l key t in
      let ts = hits_of key l.hits in
      record {
        same_max = m ∙ T.same_max;
        same_window = w ∙ T.same_window;
        past = λ k. subst (IsPast t) (sym (pruned-hits_of l key k t)) (
            if_holds (IsPast t) (key == k) (λ _. drop_old-IsPast l.window t t ts (T.past key))
              (λ _. T.past k));
        same = λ k now g.
            ap (recent window now) (pruned-hits_of l key k t)
            ∙ if_holds (λ (us : List ℕ). recent window now us ≡ recent window now (log k))
                (key == k) (dropped-log l key k now T g) (λ _. T.same k now g);
      }

  -- A hit is logged.
  logged :
      (l : Limiter) (key k : String) (now : ℕ)
      → Tracks max window t l log
      → t ≤ now
      → (key == "") ≡ false
      → recent window now (
          if key == k then drop_old l.window t (hits_of key l.hits) ++ t ∷ [] else hits_of k l.hits)
        ≡ recent window now (log_hit t key log k)
  logged l key k now T g given = elim (Bool-cases (key == k)) [
    | inl e ↦
        rw (given, e)
          (recent-append window now (drop_old l.window t (hits_of key l.hits)) (t ∷ [])
            ∙ ap (λ (us : List ℕ). us ++ recent window now (t ∷ [])) (dropped-log l key k now T g e)
            ∙ sym (recent-append window now (log k) (t ∷ [])))
    | inr e ↦ rw (given, e) (T.same k now g)
  ]

  pub hit_one-Tracks :
      (l : Limiter) (key : String)
      → Tracks max window t l log
      → Tracks max window t (hit_one l t key) (log_hit t key log)
  hit_one-Tracks l key T = elim (Bool-cases (key == "")) [
    | inl e ↦
        subst (λ (p : Limiter × Log). Tracks max window t p.0 p.1)
          (λ i. (sym (hit_one-empty l t key e) i, sym (log_hit-empty t key log e) i)) T
    | inr given ↦
        let (m, w) = hit_one-SameLimits l t key in
        let one = λ (k : String). hit_one-hits_of l t key k (ne_of_test key "" given) in
        record {
          same_max = m ∙ T.same_max;
          same_window = w ∙ T.same_window;
          past = λ k. subst (IsPast t) (sym (one k)) (
              if_holds (IsPast t) (key == k)
                (λ _.
                  append-IsPast (drop_old l.window t (hits_of key l.hits)) t
                    (drop_old-IsPast l.window t t (hits_of key l.hits) (T.past key)))
                (λ _. T.past k));
          same = λ k now g. ap (recent window now) (one k) ∙ logged l key k now T g given;
        }
  ]

  pub clear-Tracks :
      (l : Limiter) (keys : List String)
      → Tracks max window t l log
      → Tracks max window t (clear l keys) (log_clear keys log)
  clear-Tracks l keys T =
      let (m, w) = clear-SameLimits l keys in
      record {
        same_max = m ∙ T.same_max;
        same_window = w ∙ T.same_window;
        past = λ k.
            subst (IsPast t) (sym (clear-hits_of l keys k))
              (if_holds (IsPast t) (exists (λ key. key == k) keys) (λ _. (tt, tt)) (λ _. T.past k));
        same = λ k now g.
            ap (recent window now) (clear-hits_of l keys k)
            ∙ cleared k now g (exists (λ key. key == k) keys);
      }
    where
      cleared :
          (k : String) (now : ℕ)
          → t ≤ now
          → (gone : Bool)
          → recent window now (if gone then [] else hits_of k l.hits)
            ≡ recent window now (if gone then [] else log k)
      cleared k now g true = refl
      cleared k now g false = T.same k now g
