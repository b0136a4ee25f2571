-- ===== src/RateLimit/Budget.antt =====
-- What the limiter still allows of a key, counted from an instant.
use kde_auth.Prelude.{
  ℕ, suc, ◌+◌, ◌≤◌, ◌<◌, ◌≡◌, ◌≢◌, refl, sym, ap, ◌∙◌, String, false, List, [], ◌∷◌, ◌++◌, ◌==◌,
  leb, length, count_where, arith, Bool-cases, inl, inr, str_ne, str_eq_refl, subst, eq_iff,
}
use kde_auth.RateLimit.{
  Limiter, hits_of, drop_old, store_pruned, pruned, too_many, too_many_from, hit, hit_one, hit_from,
  clear, without,
}
use kde_auth.RateLimit.Laws.{pruned-hits_of, hit_one-hits_of, clear-hits_of}

-- The hits at `t₀` or later.
abbrev pub since : ℕ → List ℕ → ℕ
since t₀ = count_where (λ t. leb t₀ t)

since-drop_old :
    (t₀ window now : ℕ) (ts : List ℕ)
    → now < t₀ + window
    → since t₀ (drop_old window now ts) ≡ since t₀ ts
unfolding drop_old
since-drop_old t₀ window now [] h = refl
since-drop_old t₀ window now (t ∷ ts) h = elim (Bool-cases (leb (t + window) now)) [
  | inl old ↦ ground (arith, since-drop_old t₀ window now ts h)
  | inr new ↦ ground arith
]

since-append : (t₀ now : ℕ) (ts : List ℕ) → t₀ ≤ now → since t₀ (ts ++ now ∷ []) ≡ suc (since t₀ ts)
since-append t₀ now [] h = ground arith
since-append t₀ now (t ∷ ts) h = ground (arith, since-append t₀ now ts h)

since-length : (t₀ : ℕ) (ts : List ℕ) → since t₀ ts ≤ length ts
since-length t₀ [] = omega arith
since-length t₀ (t ∷ ts) = ground (arith, since-length t₀ ts)

-- The limit and the window are the same.
abbrev pub SameLimits : Limiter → Limiter → Type 0
SameLimits l m = (l.max ≡ m.max) × (l.window ≡ m.window)

store_pruned-SameLimits :
    (l : Limiter) (key : String) (ts : List ℕ) → SameLimits (store_pruned l key ts) l
unfolding store_pruned
store_pruned-SameLimits l key [] = (refl, refl)
store_pruned-SameLimits l key (t ∷ ts) = (refl, refl)

pub pruned-SameLimits : (l : Limiter) (key : String) (now : ℕ) → SameLimits (pruned l key now).1 l
unfolding pruned
pruned-SameLimits l key now =
    store_pruned-SameLimits l key (drop_old l.window now (hits_of key l.hits))

too_many_from-SameLimits :
    (l : Limiter) (now : ℕ) (keys : List String) → SameLimits (too_many_from l now keys).1 l
unfolding too_many_from
too_many_from-SameLimits l now [] = (refl, refl)
too_many_from-SameLimits l now (key ∷ keys) =
    let (xs, l') = pruned l key now in
    let (m, w) = pruned-SameLimits l key now in
    let (m', w') = too_many_from-SameLimits l' now keys in
    elim (Bool-cases (key == "")) [
      | inl empty ↦ rw empty (too_many_from-SameLimits l now keys)
      | inr given ↦ elim (Bool-cases (leb l.max (length xs))) [
        | inl full ↦ rw (given, full) (m, w)
        | inr room ↦ rw (given, room) (m' ∙ m, w' ∙ w)
      ]
    ]

pub too_many-SameLimits :
    (l : Limiter) (now : ℕ) (keys : List String) → SameLimits (too_many l now keys).1 l
unfolding too_many
too_many-SameLimits l now keys = elim (Bool-cases (leb l.max 0)) [
  | inl off ↦ rw off (refl, refl)
  | inr on ↦ rw on (too_many_from-SameLimits l now keys)
]

pub hit_one-SameLimits : (l : Limiter) (now : ℕ) (key : String) → SameLimits (hit_one l now key) l
unfolding hit_one
hit_one-SameLimits l now key = elim (Bool-cases (key == "")) [
  | inl empty ↦ rw empty (refl, refl)
  | inr given ↦ rw given (pruned-SameLimits l key now)
]

hit_from-SameLimits :
    (l : Limiter) (now : ℕ) (keys : List String) → SameLimits (hit_from l now keys) l
unfolding hit_from
hit_from-SameLimits l now [] = (refl, refl)
hit_from-SameLimits l now (key ∷ keys) =
    let (m, w) = hit_one-SameLimits l now key in
    let (m', w') = hit_from-SameLimits (hit_one l now key) now keys in (m' ∙ m, w' ∙ w)

pub hit-SameLimits : (l : Limiter) (now : ℕ) (keys : List String) → SameLimits (hit l now keys) l
unfolding hit
hit-SameLimits l now keys = elim (Bool-cases (leb l.max 0)) [
  | inl off ↦ rw off (refl, refl)
  | inr on ↦ rw on (hit_from-SameLimits l now keys)
]

pub clear-SameLimits : (l : Limiter) (keys : List String) → SameLimits (clear l keys) l
unfolding clear
clear-SameLimits l [] = (refl, refl)
clear-SameLimits l (key ∷ keys) = clear-SameLimits (record l { hits = without key l.hits }) keys

-- The hits of the key since the instant.
abbrev pub used : ℕ → String → Limiter → ℕ
used t₀ k l = since t₀ (hits_of k l.hits)

module _ (t₀ now : ℕ) (k : String) where
  pruned-used :
      (l : Limiter) (key : String)
      → now < t₀ + l.window
      → used t₀ k (pruned l key now).1 ≡ used t₀ k l
  pruned-used l key h = elim (Bool-cases (key == k)) [
    | inl same ↦
        ap (since t₀) (pruned-hits_of l key k now)
        ∙ ground
            (arith, since-drop_old t₀ l.window now (hits_of key l.hits) h, (eq_iff key k).0 same)
    | inr other ↦ ap (since t₀) (pruned-hits_of l key k now) ∙ rw other refl
  ]

  too_many_from-used :
      (l : Limiter) (keys : List String)
      → now < t₀ + l.window
      → used t₀ k (too_many_from l now keys).1 ≡ used t₀ k l
  unfolding too_many_from
  too_many_from-used l [] h = refl
  too_many_from-used l (key ∷ keys) h =
      let (xs, l') = pruned l key now in
      let kept = pruned-used l key h in
      let h' = subst (λ w. now < t₀ + w) (sym (pruned-SameLimits l key now).1) h in
      elim (Bool-cases (key == "")) [
        | inl empty ↦ rw empty (too_many_from-used l keys h)
        | inr given ↦ elim (Bool-cases (leb l.max (length xs))) [
          | inl full ↦ rw (given, full) kept
          | inr room ↦ rw (given, room) (too_many_from-used l' keys h' ∙ kept)
        ]
      ]

  pub too_many-used :
      (l : Limiter) (keys : List String)
      → now < t₀ + l.window
      → used t₀ k (too_many l now keys).1 ≡ used t₀ k l
  unfolding too_many
  too_many-used l keys h = elim (Bool-cases (leb l.max 0)) [
    | inl off ↦ rw off refl
    | inr on ↦ rw on (too_many_from-used l keys h)
  ]

  -- Where the limiter lets a key pass, the key has used less than the limit.
  pub too_many-room :
      (l : Limiter) (keys : List String)
      → now < t₀ + l.window
      → k ≢ ""
      → 1 ≤ l.max
      → (too_many l now (k ∷ keys)).0 ≡ false
      → used t₀ k l < l.max
  unfolding too_many too_many_from pruned
  too_many-room l keys h given on free =
      let xs = drop_old l.window now (hits_of k l.hits) in
      ground (
        arith,
        str_ne k "" given,
        since-length t₀ xs,
        since-drop_old t₀ l.window now (hits_of k l.hits) h,
      )

  -- A hit on the key and another one counts once for the key.
  pub hit-used :
      (l : Limiter) (other : String)
      → t₀ ≤ now
      → now < t₀ + l.window
      → k ≢ ""
      → other ≢ ""
      → other ≢ k
      → 1 ≤ l.max
      → used t₀ k (hit l now (k ∷ other ∷ [])) ≡ suc (used t₀ k l)
  unfolding hit hit_from
  hit-used l other from h given given' apart on =
      let xs = drop_old l.window now (hits_of k l.hits) in
      let l₁ = hit_one l now k in
      ground (
        arith,
        str_eq_refl k,
        str_ne other k apart,
        ap (since t₀) (hit_one-hits_of l₁ now other k given'),
        ap (since t₀) (hit_one-hits_of l now k k given),
        since-append t₀ now xs from,
        since-drop_old t₀ l.window now (hits_of k l.hits) h,
      )

  -- Hits on other keys do not count.
  pub hit-used_other :
      (l : Limiter) (a b : String)
      → a ≢ ""
      → b ≢ ""
      → a ≢ k
      → b ≢ k
      → used t₀ k (hit l now (a ∷ b ∷ [])) ≡ used t₀ k l
  unfolding hit hit_from
  hit-used_other l a b given given' apart apart' =
      let l₁ = hit_one l now a in
      ground (
        arith,
        str_ne a k apart,
        str_ne b k apart',
        ap (since t₀) (hit_one-hits_of l₁ now b k given'),
        ap (since t₀) (hit_one-hits_of l now a k given),
      )

  pub clear-used :
      (l : Limiter) (other : String) → other ≢ k → used t₀ k (clear l (other ∷ [])) ≡ used t₀ k l
  clear-used l other apart =
      ap (since t₀) (clear-hits_of l (other ∷ []) k) ∙ rw (str_ne other k apart) refl
