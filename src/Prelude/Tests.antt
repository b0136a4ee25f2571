-- ===== src/Prelude/Tests.antt =====
-- Boolean tests, the conditional, and the splits on a computed value.
use Prim.Native.Nat.{ℕ, ◌<◌, compare, Ordering}
use Prim.Native.String.{String}
use mathlib.Core.Path.{◌≡◌, refl}
use mathlib.Core.Logic.{◌⊎◌, inl, inr, ◌≢◌}
use mathlib.Core.Bool.{Bool, true, false, not, ◌&&◌, ◌||◌}
use mathlib.Core.Option.{Option, none, some}
use native.Mathlib.Omega.{arith}
use text.Mathlib.Text.{◌==◌}
use text.Mathlib.TextEquality.{eq_iff}

abbrev pub ltb : ℕ → ℕ → Bool
ltb a b = elim (compare a b) [ Ordering.lt ↦ true | _ ↦ false ]

abbrev pub leb : ℕ → ℕ → Bool
leb a b = elim (compare a b) [ Ordering.gt ↦ false | _ ↦ true ]

pub lt→ltb : (a b : ℕ) → a < b → ltb a b ≡ true
lt→ltb a b h = ground arith

infix 1 if◌then◌else◌
abbrev pub if◌then◌else◌ {ℓ} : {A : Type ℓ} → Bool → A → A → A
if true then x else y = x
if false then x else y = y

pub Bool-cases : (b : Bool) → (b ≡ true) ⊎ (b ≡ false)
Bool-cases true = inl refl
Bool-cases false = inr refl

pub Option-cases {ℓ} : {A : Type ℓ} (o : Option A) → (o ≡ none) ⊎ ((a : A) × (o ≡ some a))
Option-cases none = inl refl
Option-cases (some a) = inr (a, refl)

-- What holds of both branches holds of the test.
pub if_holds {ℓ κ} :
    {A : Type ℓ} (P : A → Type κ) (b : Bool) {x y : A}
    → (b ≡ true → P x)
    → (b ≡ false → P y)
    → P (if b then x else y)
if_holds P true hx hy = hx refl
if_holds P false hx hy = hy refl

pub not-true : (b : Bool) → not b ≡ true → b ≡ false
not-true true h = ground arith
not-true false h = refl

abbrev pub is_some {ℓ} : {A : Type ℓ} → Option A → Bool
is_some none = false
is_some (some _) = true

-- Texts are compared by the library's test, which is equality.
pub str_eq_refl : (s : String) → (s == s) ≡ true
str_eq_refl s = (eq_iff s s).1 refl

pub str_ne : (s t : String) → s ≢ t → (s == t) ≡ false
str_ne s t h = elim (Bool-cases (s == t)) [ inl e ↦ absurd (h ((eq_iff s t).0 e)) | inr e ↦ e ]

pub ne_of_test : (s t : String) → (s == t) ≡ false → s ≢ t
ne_of_test s t h e = ground (arith, (eq_iff s t).1 e)

pub and_left : (a b : Bool) → (a && b) ≡ true → a ≡ true
and_left true b h = refl
and_left false b h = h

pub and_right : (a b : Bool) → (a && b) ≡ true → b ≡ true
and_right true b h = h
and_right false b h = ground arith

pub or_false_left : (a b : Bool) → (a || b) ≡ false → a ≡ false
or_false_left true b h = h
or_false_left false b h = refl

pub or_false_right : (a b : Bool) → (a || b) ≡ false → b ≡ false
or_false_right true b h = ground arith
or_false_right false b h = h
