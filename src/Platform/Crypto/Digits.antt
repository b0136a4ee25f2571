-- ===== src/Platform/Crypto/Digits.antt =====
-- Exclusive or is 0 of equal numbers alone, and or is 0 of zeros alone.
use Prim.Native.Nat.{
  ◌/◌, ◌%◌, bit_or, bit_xor, bit_or-bitwise, bit_xor-bitwise, digits, differ, max,
}
use native.Mathlib.Nat.{div-add-mod, div-lt_self}
use kde_auth.Prelude.{ℕ, zero, suc, ◌≤◌, ◌≡◌, refl, sym, ap, ◌∙◌, arith}

differ_self : (a : ℕ) → differ a a ≡ 0
differ_self zero = refl
differ_self (suc a) = differ_self a

differ-zero : (a b : ℕ) → differ a b ≡ 0 → a ≡ b
differ-zero zero b h = sym h
differ-zero (suc a) zero h = absurd (omega (arith, h))
differ-zero (suc a) (suc b) h = ap (λ n. suc n) (differ-zero a b h)

half_le : (n a : ℕ) → a ≤ n → suc a / 2 ≤ n
half_le n a h = omega (arith, h, div-lt_self {n = suc a} {k = 2} (omega arith) (omega arith))

xor_digits_self : (n a : ℕ) → a ≤ n → digits (λ b. b) differ n a a ≡ 0
xor_digits_self zero a h = omega (arith, h)
xor_digits_self (suc n) zero h = refl
xor_digits_self (suc n) (suc a) h =
    omega (
      arith,
      xor_digits_self n (suc a / 2) (half_le n a (omega (arith, h))),
      differ_self (suc a % 2),
    )

from_halves : (a b : ℕ) → a / 2 ≡ b / 2 → a % 2 ≡ b % 2 → a ≡ b
from_halves a b h m = omega (arith, h, m, div-add-mod a 2, div-add-mod b 2)

xor_digits-zero : (n a b : ℕ) → a ≤ n → digits (λ b. b) differ n a b ≡ 0 → a ≡ b
xor_digits-zero zero a b h e = omega (arith, h, e)
xor_digits-zero (suc n) zero b h e = sym e
xor_digits-zero (suc n) (suc a) b h e =
    let high : digits (λ b. b) differ n (suc a / 2) (b / 2) ≡ 0 = omega (arith, e) in
    let low : differ (suc a % 2) (b % 2) ≡ 0 = omega (arith, e) in
    from_halves (suc a) b
      (xor_digits-zero n (suc a / 2) (b / 2) (half_le n a (omega (arith, h))) high)
      (differ-zero (suc a % 2) (b % 2) low)

or_digits-zero : (n a b : ℕ) → a ≤ n → digits (λ b. b) max n a b ≡ 0 → (a ≡ 0) × (b ≡ 0)
or_digits-zero zero a b h e = (omega (arith, h), e)
or_digits-zero (suc n) zero b h e = (refl, e)
or_digits-zero (suc n) (suc a) b h e =
    let high : digits (λ b. b) max n (suc a / 2) (b / 2) ≡ 0 = omega (arith, e) in
    let low : max (suc a % 2) (b % 2) ≡ 0 = omega (arith, e) in
    let half = (or_digits-zero n (suc a / 2) (b / 2) (half_le n a (omega (arith, h))) high).0 in
    absurd (omega (arith, half, low, div-add-mod (suc a) 2))

pub bit_xor_self : (a : ℕ) → bit_xor a a ≡ 0
bit_xor_self a = bit_xor-bitwise a a ∙ xor_digits_self a a (omega arith)

pub bit_xor-zero : (a b : ℕ) → bit_xor a b ≡ 0 → a ≡ b
bit_xor-zero a b h = xor_digits-zero a a b (omega arith) (sym (bit_xor-bitwise a b) ∙ h)

pub bit_or-zero : (a b : ℕ) → bit_or a b ≡ 0 → (a ≡ 0) × (b ≡ 0)
bit_or-zero a b h = or_digits-zero a a b (omega arith) (sym (bit_or-bitwise a b) ∙ h)
