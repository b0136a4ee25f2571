-- ===== src/Platform/Crypto.antt =====
-- internal/adapter/crypto: argon2.go, and the encoding of a public exponent in rsa_jwt.go. A byte
-- is a number below 256. Key derivation, base64 and the scanning of numbers are parameters.
pub mod Digits
pub mod Bytes
pub mod Verification
use Prim.Native.Nat.{◌/◌, ◌%◌, bit_or, bit_xor}
use kde_auth.Prelude.{
  ℕ, zero, suc, String, Bool, true, false, Option, none, some, List, [], ◌∷◌, not, ◌==◌, ◌&&◌, leb,
  length, if◌then◌else◌,
}

abbrev pub eqb : ℕ → ℕ → Bool
eqb a b = leb a b && leb b a

-- The loop `v |= a[i] ^ b[i]`.
pub differences : ℕ → List ℕ → List ℕ → ℕ
differences v (a ∷ xs) (b ∷ ys) = differences (bit_or v (bit_xor a b)) xs ys
differences v _ _ = v

unfoldable pub subtle_constant_time_compare : List ℕ → List ℕ → Bool
unfolding differences
subtle_constant_time_compare a b =
    if not (eqb (length a) (length b)) then false else eqb (differences 0 a b) 0

-- The loop of bigIntToBytes: `n & 0xff` is put in front, and `n >>= 8`.
pub bytes_from : (fuel n : ℕ) → List ℕ → List ℕ
bytes_from zero n out = out
bytes_from (suc fuel) n out =
    let rest = bytes_from fuel (n / 256) (n % 256 ∷ out) in if leb n 0 then out else rest

-- The number itself is fuel enough.
unfoldable pub big_int_to_bytes : ℕ → List ℕ
unfolding bytes_from
big_int_to_bytes n = if eqb n 0 then 0 ∷ [] else bytes_from n n []

pub record ArgonParams : Type 0 where
  pub memory : ℕ
  pub time : ℕ
  pub threads : ℕ

-- What argon2.go takes from strings, fmt, encoding/base64 and golang.org/x/crypto/argon2.
pub record ArgonLibrary : Type 0 where
  -- strings.Split(s, "$")
  pub split : String → List String
  -- fmt.Sscanf with "v=%d", and with "m=%d,t=%d,p=%d"
  pub scan_version : String → Option ℕ
  pub scan_params : String → Option ArgonParams
  -- base64.RawStdEncoding.DecodeString
  pub decode_base64 : String → Option (List ℕ)
  -- argon2.IDKey: the password, the salt, the parameters, the length
  pub id_key : String → List ℕ → ArgonParams → ℕ → List ℕ

pub record Decoded : Type 0 where
  pub salt : List ℕ
  pub hash : List ℕ
  pub params : ArgonParams

module _ (lib : ArgonLibrary) where
  abbrev checked : Bool → Option Decoded → Option Decoded
  checked true d = d
  checked false d = none

  abbrev decoded :
      Option ℕ → Option ArgonParams → Option (List ℕ) → Option (List ℕ) → Option Decoded
  decoded (some _) (some params) (some salt) (some hash) =
      some (record { salt = salt; hash = hash; params = params })
  decoded _ _ _ _ = none

  abbrev of_parts : List String → Option Decoded
  of_parts (_ ∷ name ∷ version ∷ params ∷ salt ∷ hash ∷ []) = checked (name == "argon2id") (
      decoded (lib.scan_version version) (lib.scan_params params) (lib.decode_base64 salt)
        (lib.decode_base64 hash))
  of_parts _ = none

  unfoldable pub decode_argon2id : String → Option Decoded
  decode_argon2id encoded = of_parts (lib.split encoded)

  abbrev pub verify_decoded : String → Option Decoded → Bool
  verify_decoded password none = false
  verify_decoded password (some d) =
      subtle_constant_time_compare d.hash (lib.id_key password d.salt d.params (length d.hash))

  unfoldable pub verify : (stored password : String) → Bool
  verify stored password = verify_decoded password (decode_argon2id stored)
