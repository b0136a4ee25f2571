-- ===== src/Prelude/Rows.antt =====
-- Lemmas on the table operations.
use mathlib.Core.Path.{◌≡◌, refl}
use mathlib.Core.Bool.{Bool, true, false}
use mathlib.Core.Option.{Option, none, some}
use mathlib.Core.List.{List, [], ◌∷◌, ◌++◌}
use mathlib.Core.Logic.{inl, inr}
use native.Mathlib.Omega.{arith}
use kde_auth.Prelude.Tests.{if◌then◌else◌, Bool-cases}
use kde_auth.Prelude.Tables.{find, exists, update_where, All}

module _ {ℓ} {A : Type ℓ} where
  abbrev pub map_found : (A → A) → Option A → Option A
  map_found f none = none
  map_found f (some a) = some (f a)

  abbrev pub or_else : Option A → Option A → Option A
  or_else none d = d
  or_else (some a) d = some a

  -- An update that leaves the key alone is seen by a look-up of the key.
  pub find-update_where :
      (p q : A → Bool) (f : A → A) (xs : List A)
      → ((x : A) → p (f x) ≡ p x)
      → find p (update_where q f xs) ≡ (map_found (λ x. if q x then f x else x) (find p xs))
  find-update_where p q f [] h = refl
  find-update_where p q f (x ∷ xs) h = ground (arith, h x, find-update_where p q f xs h)

  pub find-append :
      (p : A → Bool) (xs ys : List A) → find p (xs ++ ys) ≡ or_else (find p xs) (find p ys)
  find-append p [] ys = refl
  find-append p (x ∷ xs) ys = ground (arith, find-append p xs ys)

  pub find-holds : (p : A → Bool) (xs : List A) {a : A} → find p xs ≡ some a → p a ≡ true
  find-holds p [] h = absurd (ground arith)
  find-holds p (x ∷ xs) {a} h = elim (Bool-cases (p x)) [
    | inl e ↦ ground arith
    | inr e ↦ find-holds p xs (ground arith)
  ]

  pub find_of_not_exists : (p : A → Bool) (xs : List A) → exists p xs ≡ false → find p xs ≡ none
  find_of_not_exists p [] h = refl
  find_of_not_exists p (x ∷ xs) h = ground (arith, find_of_not_exists p xs)

  pub exists_of_find :
      (p : A → Bool) (xs : List A) {a : A} → find p xs ≡ some a → exists p xs ≡ true
  exists_of_find p [] h = absurd (ground arith)
  exists_of_find p (x ∷ xs) {a} h = ground (arith, exists_of_find p xs {a = a})

  pub All-append {κ} : (P : A → Type κ) (xs ys : List A) → All P xs → All P ys → All P (xs ++ ys)
  All-append P [] ys h k = k
  All-append P (x ∷ xs) ys h k = (h.0, All-append P xs ys h.1 k)
