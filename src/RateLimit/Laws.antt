-- ===== src/RateLimit/Laws.antt =====
-- The limiter counts the hits of a key inside the window.
use kde_auth.Prelude.{
  ℕ, ◌+◌, ◌≤◌, ◌<◌, String, false, List, [], ◌∷◌, ◌++◌, ◌≡◌, ◌≢◌, refl, ◌==◌, leb, ltb, length,
  if◌then◌else◌, All, arith, str_ne, Bool-cases, inl, inr, eq_iff, sym, select_where, exists,
}
use kde_auth.RateLimit.{
  Limiter, hits_of, without, with_hits, drop_old, store_pruned, pruned, too_many, hit_one, hit,
  clear,
}

-- The hits that are inside the window, wherever they stand.
abbrev pub recent : ℕ → ℕ → List ℕ → List ℕ
recent window now = select_where (λ t. ltb now (t + window))

-- The hits stand in the order of their times.
abbrev pub IsOrdered : List ℕ → Type 0
IsOrdered [] = Unit
IsOrdered (t ∷ ts) = All (λ u. t ≤ u) ts × IsOrdered ts

recent-All :
    (window now t : ℕ) (ts : List ℕ)
    → now < t + window
    → All (λ u. t ≤ u) ts
    → recent window now ts ≡ ts
recent-All window now t [] h a = refl
recent-All window now t (u ∷ us) h a = ground (arith, a.0, recent-All window now t us h a.1)

leb-false : (a b : ℕ) → leb a b ≡ false → b < a
leb-false a b h = ground arith

pub drop_old-recent :
    (window now : ℕ) (ts : List ℕ) → IsOrdered ts → drop_old window now ts ≡ recent window now ts
unfolding drop_old
drop_old-recent window now [] o = refl
drop_old-recent window now (t ∷ ts) o = elim (Bool-cases (leb (t + window) now)) [
  | inl old ↦ ground (arith, drop_old-recent window now ts o.1)
  | inr new ↦
      let inside = leb-false (t + window) now new in
      ground (arith, recent-All window now t ts inside o.0)
]

str_sym : (a b : String) → (a == b) ≡ false → (b == a) ≡ false
str_sym a b h = str_ne b a λ e. ground (arith, (eq_iff a b).1 (sym e))

hits_of-without :
    (key k : String) (m : List (String × List ℕ))
    → hits_of k (without key m) ≡ (if key == k then [] else hits_of k m)
unfolding hits_of without
hits_of-without key k [] = ground arith
hits_of-without key k ((j, ts) ∷ m) = elim (Bool-cases (j == key)) [
  | inl gone ↦ ground (arith, hits_of-without key k m, (eq_iff j key).0 gone)
  | inr kept ↦ elim (Bool-cases (j == k)) [
    | inl here ↦ ground (arith, str_sym j key kept, (eq_iff j k).0 here)
    | inr there ↦ ground (arith, hits_of-without key k m)
  ]
]

with_hits_lem :
    (key k : String) (ts : List ℕ) (m : List (String × List ℕ))
    → hits_of k (with_hits key ts m) ≡ (if key == k then ts else hits_of k m)
unfolding hits_of with_hits
with_hits_lem key k ts m = ground (arith, hits_of-without key k m)

store_pruned-hits_of :
    (l : Limiter) (key k : String) (ts : List ℕ)
    → hits_of k (store_pruned l key ts).hits ≡ (if key == k then ts else hits_of k l.hits)
unfolding store_pruned
store_pruned-hits_of l key k [] = hits_of-without key k l.hits
store_pruned-hits_of l key k (t ∷ ts) = with_hits_lem key k (t ∷ ts) l.hits

-- Pruning keeps the hits of the key that are inside the window, and every other key's hits.
pub pruned-hits_of :
    (l : Limiter) (key k : String) (now : ℕ)
    → hits_of k (pruned l key now).1.hits
      ≡ (if key == k then drop_old l.window now (hits_of key l.hits) else hits_of k l.hits)
unfolding pruned
pruned-hits_of l key k now =
    store_pruned-hits_of l key k (drop_old l.window now (hits_of key l.hits))

-- The limiter answers too many for a key exactly where the hits of the key that are inside the
-- window reach the limit; the hits must be stored in the order of their times, the key not be
-- empty, and the limit not be 0.
pub too_many-recent :
    (l : Limiter) (now : ℕ) (key : String)
    → IsOrdered (hits_of key l.hits)
    → key ≢ ""
    → 1 ≤ l.max
    → (too_many l now (key ∷ [])).0 ≡ leb l.max (length (recent l.window now (hits_of key l.hits)))
unfolding too_many pruned
too_many-recent l now key o k m =
    ground (arith, str_ne key "" k, drop_old-recent l.window now (hits_of key l.hits) o)

pub hit_one-hits_of :
    (l : Limiter) (now : ℕ) (key k : String)
    → key ≢ ""
    → hits_of k (hit_one l now key).hits ≡ (
        if key == k
        then drop_old l.window now (hits_of key l.hits) ++ now ∷ []
        else hits_of k l.hits)
unfolding hit_one
hit_one-hits_of l now key k n =
    let old = drop_old l.window now (hits_of key l.hits) in
    let l' = (pruned l key now).1 in
    ground (
      arith,
      str_ne key "" n,
      with_hits_lem key k (old ++ now ∷ []) l'.hits,
      pruned-hits_of l key k now,
    )

-- A hit adds the instant to the hits of its key that are inside the window, and leaves the hits of
-- every other key alone; the key must not be empty, and the limit not be 0.
pub hit-hits_of :
    (l : Limiter) (now : ℕ) (key k : String)
    → IsOrdered (hits_of key l.hits)
    → key ≢ ""
    → 1 ≤ l.max
    → hits_of k (hit l now (key ∷ [])).hits ≡ (
        if key == k then recent l.window now (hits_of key l.hits) ++ now ∷ [] else hits_of k l.hits)
unfolding hit
hit-hits_of l now key k o n m =
    let one = hit_one-hits_of l now key k n in
    ground (arith, str_ne key "" n, one, drop_old-recent l.window now (hits_of key l.hits) o)

-- Clearing forgets every hit of the given keys, and leaves the hits of every other key alone.
pub clear-hits_of :
    (l : Limiter) (keys : List String) (k : String)
    → hits_of k (clear l keys).hits
      ≡ (if exists (λ key. key == k) keys then [] else hits_of k l.hits)
unfolding clear
clear-hits_of l [] k = refl
clear-hits_of l (key ∷ keys) k = ground (
  arith,
  clear-hits_of (record l { hits = without key l.hits }) keys k,
  hits_of-without key k l.hits,
)
