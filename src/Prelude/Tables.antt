-- ===== src/Prelude/Tables.antt =====
-- A table is the list of its rows; the SQL statements are the functions below.
use Prim.Native.Nat.{ℕ, zero, suc}
use mathlib.Core.Bool.{Bool, false, ◌||◌}
use mathlib.Core.Option.{Option, none, some}
use mathlib.Core.List.{List, [], ◌∷◌}
use kde_auth.Prelude.Tests.{if◌then◌else◌}

module _ {ℓ} {A : Type ℓ} where
  -- The first row that meets the condition: SELECT ... WHERE p, on a key.
  abbrev pub find : (A → Bool) → List A → Option A
  find p [] = none
  find p (x ∷ xs) = if p x then some x else find p xs

  -- SELECT EXISTS(SELECT 1 ... WHERE p)
  abbrev pub exists : (A → Bool) → List A → Bool
  exists p [] = false
  exists p (x ∷ xs) = p x || exists p xs

  -- SELECT COUNT(*) ... WHERE p
  abbrev pub count_where : (A → Bool) → List A → ℕ
  count_where p [] = 0
  count_where p (x ∷ xs) = if p x then suc (count_where p xs) else count_where p xs

  -- UPDATE ... SET f WHERE p
  abbrev pub update_where : (A → Bool) → (A → A) → List A → List A
  update_where p f [] = []
  update_where p f (x ∷ xs) = (if p x then f x else x) ∷ update_where p f xs

  -- DELETE ... WHERE p
  abbrev pub delete_where : (A → Bool) → List A → List A
  delete_where p [] = []
  delete_where p (x ∷ xs) = let rest = delete_where p xs in if p x then rest else x ∷ rest

  -- SELECT ... WHERE p, all rows
  abbrev pub select_where : (A → Bool) → List A → List A
  select_where p [] = []
  select_where p (x ∷ xs) = let rest = select_where p xs in if p x then x ∷ rest else rest

  abbrev pub length : List A → ℕ
  length [] = 0
  length (x ∷ xs) = suc (length xs)

  abbrev pub take : ℕ → List A → List A
  take n [] = []
  take zero (x ∷ xs) = []
  take (suc n) (x ∷ xs) = x ∷ take n xs

  abbrev pub drop : ℕ → List A → List A
  drop n [] = []
  drop zero (x ∷ xs) = x ∷ xs
  drop (suc n) (x ∷ xs) = drop n xs

  -- `x` in front of the first element that it may stand in front of.
  abbrev pub insert_by : (A → A → Bool) → A → List A → List A
  insert_by before x [] = x ∷ []
  insert_by before x (y ∷ ys) =
      let rest = insert_by before x ys in if before x y then x ∷ y ∷ ys else y ∷ rest

  -- ORDER BY; SQL leaves open how rows that are equal in the order stand.
  abbrev pub order_by : (A → A → Bool) → List A → List A
  order_by before [] = []
  order_by before (x ∷ xs) = insert_by before x (order_by before xs)

  -- The predicate on every row.
  abbrev pub All {κ} : (A → Type κ) → List A → Type κ
  All P [] = Unit
  All P (x ∷ xs) = P x × All P xs
