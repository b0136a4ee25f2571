-- ===== src/Platform/Crypto/Verification.antt =====
-- The comparison in constant time is a comparison, and what a password that verifies has.
use Prim.Native.Nat.{bit_or, bit_xor}
use kde_auth.Prelude.{
  ℕ, ◌≡◌, refl, sym, ap, ◌∙◌, String, Bool, true, false, some, List, [], ◌∷◌, ◌&&◌, length, arith,
  Bool-cases, Option-cases, inl, inr, and_left, and_right,
}
use kde_auth.Platform.Crypto.{
  eqb, differences, subtle_constant_time_compare, ArgonLibrary, Decoded, decode_argon2id,
  verify_decoded, verify,
}
use kde_auth.Platform.Crypto.Digits.{bit_xor_self, bit_xor-zero, bit_or-zero}

-- Byte by byte.
abbrev pub bytes_equal : List ℕ → List ℕ → Bool
bytes_equal [] [] = true
bytes_equal (x ∷ xs) (y ∷ ys) = eqb x y && bytes_equal xs ys
bytes_equal _ _ = false

eqb_self : (n : ℕ) → eqb n n ≡ true
eqb_self n = ground arith

eqb_ok : (m n : ℕ) → eqb m n ≡ true → m ≡ n
eqb_ok m n h = ground arith

differences_ok :
    (v : ℕ) (xs ys : List ℕ)
    → eqb (length xs) (length ys) ≡ true
    → differences v xs ys ≡ 0
    → (v ≡ 0) × (bytes_equal xs ys ≡ true)
unfolding differences
differences_ok v [] [] l h = (h, refl)
differences_ok v [] (y ∷ ys) l h = absurd (ground (arith, l))
differences_ok v (x ∷ xs) [] l h = absurd (ground (arith, l))
differences_ok v (x ∷ xs) (y ∷ ys) l h =
    let (rest, same) = differences_ok (bit_or v (bit_xor x y)) xs ys (ground (arith, l)) h in
    let (zeros, equal) = bit_or-zero v (bit_xor x y) rest in
    (zeros, rw (bit_xor-zero x y equal) (ground (arith, same, eqb_self y)))

differences_same :
    (xs ys : List ℕ)
    → bytes_equal xs ys ≡ true
    → (differences 0 xs ys ≡ 0) × (eqb (length xs) (length ys) ≡ true)
unfolding differences
differences_same [] [] h = (refl, refl)
differences_same (x ∷ xs) (y ∷ ys) h =
    let equal = eqb_ok x y (and_left (eqb x y) (bytes_equal xs ys) h) in
    let (rest, long) = differences_same xs ys (and_right (eqb x y) (bytes_equal xs ys) h) in
    (
      ap (λ (n : ℕ). differences n xs ys)
            (ap (λ (n : ℕ). bit_or 0 (bit_xor n y)) equal ∙ ap (bit_or 0) (bit_xor_self y))
          ∙ rest,
      ground (arith, long),
    )
differences_same [] (y ∷ ys) h = absurd (ground (arith, h))
differences_same (x ∷ xs) [] h = absurd (ground (arith, h))

-- The comparison in constant time tells whether two texts of bytes are the same.
pub subtle_constant_time_compare-bytes_equal :
    (xs ys : List ℕ) → subtle_constant_time_compare xs ys ≡ bytes_equal xs ys
unfolding subtle_constant_time_compare
subtle_constant_time_compare-bytes_equal xs ys = elim (Bool-cases (bytes_equal xs ys)) [
  | inl same ↦
      let (none_differ, long) = differences_same xs ys same in rw (same, long, none_differ) refl
  | inr other ↦ elim (Bool-cases (eqb (length xs) (length ys))) [
    | inr apart ↦ rw (other, apart) refl
    | inl long ↦ elim (Bool-cases (eqb (differences 0 xs ys) 0)) [
      | inr some_differ ↦ rw (other, long, some_differ) refl
      | inl none_differ ↦
          let found =
            (differences_ok 0 xs ys long (eqb_ok (differences 0 xs ys) 0 none_differ)).1 in
          absurd (ground (arith, found, other))
    ]
  ]
]

-- A password verifies only against a stored text that decodes, where the key derived from the
-- password with the decoded salt and parameters, at the length of the stored hash, is that hash.
pub verify-id_key :
    (lib : ArgonLibrary) (stored password : String)
    → verify lib stored password ≡ true
    → (d : Decoded) × (decode_argon2id lib stored ≡ some d)
      × (bytes_equal d.hash (lib.id_key password d.salt d.params (length d.hash)) ≡ true)
unfolding verify
verify-id_key lib stored password h = elim (Option-cases (decode_argon2id lib stored)) [
  | inl missing ↦ absurd (ground (arith, h, missing))
  | inr (d, found) ↦ (
    d,
    found,
    sym (
          subtle_constant_time_compare-bytes_equal d.hash
            (lib.id_key password d.salt d.params (length d.hash)))
        ∙ ap (verify_decoded lib password) (sym found)
        ∙ h,
  )
]
