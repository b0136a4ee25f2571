-- ===== src/RateLimit.antt =====
-- internal/platform/ratelimit/limiter.go. Instants are numbers; `!t.After(now.Add(-window))` is
-- `t + window ≤ now`. A limit that is zero or negative in the source is 0 here. The mutex makes
-- each method one step. The map of hits is an association list.
pub mod Laws
pub mod Budget
pub mod Log
pub mod Refinement
use kde_auth.Prelude.{
  ℕ, ◌+◌, String, Bool, true, false, List, [], ◌∷◌, ◌++◌, ◌==◌, leb, ltb, length, if◌then◌else◌,
}

pub record Limiter : Type 0 where
  pub max : ℕ
  pub window : ℕ
  pub hits : List (String × List ℕ)

-- A missing key reads as the empty slice.
unfoldable pub hits_of : String → List (String × List ℕ) → List ℕ
hits_of key [] = []
hits_of key ((k, ts) ∷ m) = if k == key then ts else hits_of key m

-- delete(m, key)
pub without : String → List (String × List ℕ) → List (String × List ℕ)
without key [] = []
without key ((k, ts) ∷ m) = let rest = without key m in if k == key then rest else (k, ts) ∷ rest

-- m[key] = ts
pub with_hits : String → List ℕ → List (String × List ℕ) → List (String × List ℕ)
unfolding without
with_hits key ts m = (key, ts) ∷ without key m

-- The loop that moves `i` past the hits that have left the window, and `xs[i:]`.
pub drop_old : ℕ → ℕ → List ℕ → List ℕ
drop_old window now [] = []
drop_old window now (t ∷ ts) = elim (leb (t + window) now) [
  | true ↦ drop_old window now ts
  | false ↦ t ∷ ts
]

pub store_pruned : Limiter → String → List ℕ → Limiter
unfolding without with_hits
store_pruned l key [] = record l { hits = without key l.hits }
store_pruned l key (t ∷ ts) = record l { hits = with_hits key (t ∷ ts) l.hits }

unfoldable pub pruned : Limiter → String → ℕ → List ℕ × Limiter
unfolding drop_old hits_of store_pruned
pruned l key now =
    let xs = drop_old l.window now (hits_of key l.hits) in (xs, store_pruned l key xs)

-- The loop of `TooMany` over the keys.
pub too_many_from : Limiter → ℕ → List String → Bool × Limiter
unfolding pruned
too_many_from l now [] = (false, l)
too_many_from l now (key ∷ keys) =
    let (xs, l') = pruned l key now in
    let skip = too_many_from l now keys in
    let next = too_many_from l' now keys in
    if key == "" then skip else if leb l.max (length xs) then (true, l') else next

unfoldable pub too_many : Limiter → ℕ → List String → Bool × Limiter
unfolding too_many_from
too_many l now keys = if leb l.max 0 then (false, l) else too_many_from l now keys

-- One key of `Hit`.
unfoldable pub hit_one : Limiter → ℕ → String → Limiter
unfolding pruned
hit_one l now key =
    let (xs, l') = pruned l key now in
    if key == "" then l else record l' { hits = with_hits key (xs ++ now ∷ []) l'.hits }

pub hit_from : Limiter → ℕ → List String → Limiter
unfolding hit_one
hit_from l now [] = l
hit_from l now (key ∷ keys) = hit_from (hit_one l now key) now keys

unfoldable pub hit : Limiter → ℕ → List String → Limiter
unfolding hit_from
hit l now keys = if leb l.max 0 then l else hit_from l now keys

unfoldable pub clear : Limiter → List String → Limiter
unfolding without
clear l [] = l
clear l (key ∷ keys) = clear (record l { hits = without key l.hits }) keys
