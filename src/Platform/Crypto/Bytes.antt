-- ===== src/Platform/Crypto/Bytes.antt =====
-- The bytes of a number.
use Prim.Native.Nat.{◌/◌, ◌%◌}
use native.Mathlib.Nat.{div-add-mod, mod-lt, div-lt_self}
use kde_auth.Prelude.{
  ℕ, zero, suc, ◌+◌, ◌*◌, ◌≤◌, ◌<◌, ◌≡◌, ap, ◌∙◌, false, List, [], ◌∷◌, All, leb, arith, Bool-cases,
  inl, inr,
}
use kde_auth.Platform.Crypto.{bytes_from, big_int_to_bytes, eqb}

-- The number that bytes stand for, the highest first, behind a number.
abbrev pub value_behind : ℕ → List ℕ → ℕ
value_behind n [] = n
value_behind n (b ∷ bs) = value_behind (256 * n + b) bs

smaller : (fuel n : ℕ) → n ≤ suc fuel → leb n 0 ≡ false → n / 256 ≤ fuel
smaller fuel n h p =
    let pos : 0 < n = ground arith in
    let less = div-lt_self {n = n} {k = 256} pos (omega arith) in omega (arith, less, h)

bytes_from-value_behind :
    (fuel n : ℕ) (out : List ℕ)
    → n ≤ fuel
    → value_behind 0 (bytes_from fuel n out) ≡ value_behind n out
unfolding bytes_from
bytes_from-value_behind zero n out h = ap (λ (m : ℕ). value_behind m out) (omega (arith, h))
bytes_from-value_behind (suc fuel) n out h = elim (Bool-cases (leb n 0)) [
  | inl done ↦ let none : 0 ≡ n = ground arith in rw done (ap (λ (m : ℕ). value_behind m out) none)
  | inr more ↦ rw more (
      bytes_from-value_behind fuel (n / 256) (n % 256 ∷ out) (smaller fuel n h more)
      ∙ ap (λ (m : ℕ). value_behind m out) (div-add-mod n 256))
]

bytes_from-All :
    (fuel n : ℕ) (out : List ℕ)
    → All (λ b. b < 256) out
    → All (λ b. b < 256) (bytes_from fuel n out)
unfolding bytes_from
bytes_from-All zero n out a = a
bytes_from-All (suc fuel) n out a = elim (Bool-cases (leb n 0)) [
  | inl done ↦ rw done a
  | inr more ↦ rw more (bytes_from-All fuel (n / 256) (n % 256 ∷ out) (mod-lt n (omega arith), a))
]

-- The loop ends within as many turns as the number, whatever it is, and its bytes, each below 256,
-- stand for the number, the highest first.
pub big_int_to_bytes-value_behind :
    (n : ℕ) → (value_behind 0 (big_int_to_bytes n) ≡ n) × All (λ b. b < 256) (big_int_to_bytes n)
unfolding big_int_to_bytes
big_int_to_bytes-value_behind n = elim (Bool-cases (eqb n 0)) [
  | inl e ↦ let none : 0 ≡ n = ground arith in rw e (none, (omega arith, tt))
  | inr e ↦ rw e (bytes_from-value_behind n n [] (omega arith), bytes_from-All n n [] tt)
]
