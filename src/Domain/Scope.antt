-- ===== src/Domain/Scope.antt =====
-- internal/domain/token.go: scopes. A scope is walked byte by byte; the bytes are numbers below
-- 256 in a list.
pub mod Laws
use Prim.Native.Char.{code}
use kde_auth.Prelude.{
  ℕ, zero, suc, ◌+◌, ◌-◌, String, Bool, true, false, List, [], ◌∷◌, ◌++◌, Option, none, some, ltb,
  ◌&&◌, ◌||◌, not, if◌then◌else◌, length,
}
use kde_auth.Domain.Errors.{Result, ok, err, invalid_scope, validation_error}
use Prim.Native.Nat.{compare, Ordering}

abbrev pub eqb : ℕ → ℕ → Bool
eqb a b = elim (compare a b) [ Ordering.eq ↦ true | _ ↦ false ]

abbrev pub bytes_eq : List ℕ → List ℕ → Bool
bytes_eq [] [] = true
bytes_eq (a ∷ s) (b ∷ t) = eqb a b && bytes_eq s t
bytes_eq _ _ = false

-- The code points of a text: its bytes, if it is ASCII.
abbrev pub codes : String → List ℕ
codes String.[] = []
codes (String.◌∷◌ c s) = code c ∷ codes s

abbrev pub take : ℕ → List ℕ → List ℕ
take zero s = []
take (suc n) [] = []
take (suc n) (c ∷ s) = c ∷ take n s

abbrev pub drop : ℕ → List ℕ → List ℕ
drop zero s = s
drop (suc n) [] = []
drop (suc n) (c ∷ s) = drop n s

-- s[i:j]
abbrev pub slice : List ℕ → ℕ → ℕ → List ℕ
slice s i j = take (j - i) (drop i s)

-- `parts = append(parts, s[start:i])`, if the field is not empty
abbrev pub add_part : List ℕ → ℕ → ℕ → List (List ℕ) → List (List ℕ)
add_part s start i parts = if ltb start i then parts ++ slice s start i ∷ [] else parts

-- The loop of `splitFields` at index `i`, with `rest` the bytes from `i` on; it also runs once
-- at `i == len(s)`, where `rest` is empty.
pub split_fields_from : List ℕ → List (List ℕ) → ℕ → ℕ → List ℕ → List (List ℕ)
split_fields_from s parts start i [] = add_part s start i parts
split_fields_from s parts start i (c ∷ rest) = elim (eqb c b' ') [
  | true ↦ split_fields_from s (add_part s start i parts) (i + 1) (i + 1) rest
  | false ↦ split_fields_from s parts start (i + 1) rest
]

unfoldable pub split_fields : List ℕ → List (List ℕ)
unfolding split_fields_from
split_fields s = split_fields_from s [] 0 0 s

abbrev pub scope_openid : List ℕ
scope_openid = codes "openid"

abbrev pub scope_email : List ℕ
scope_email = codes "email"

abbrev pub scope_offline_access : List ℕ
scope_offline_access = codes "offline_access"

-- The loop of `ParseScope`, with the flag `hasOpenID`.
pub scan_parts : Bool → List (List ℕ) → Result Bool
scan_parts has_openid [] = ok has_openid
scan_parts has_openid (part ∷ parts) =
    let known = bytes_eq part scope_openid in
    let rest = scan_parts (known || has_openid) parts in
    if known || bytes_eq part scope_email || bytes_eq part scope_offline_access
    then rest
    else err invalid_scope

pub require_openid : Result Bool → Result (Unit {0})
require_openid (ok has_openid) = if not has_openid then err invalid_scope else ok tt
require_openid (err e) = err e

abbrev is_empty : List ℕ → Bool
is_empty [] = true
is_empty _ = false

unfoldable pub parse_scope : List ℕ → Result (Unit {0})
unfolding scan_parts split_fields require_openid
parse_scope scope =
    if is_empty scope
    then err (validation_error "scope" "scope is required")
    else require_openid (scan_parts false (split_fields scope))

pub includes : List (List ℕ) → List ℕ → Bool
includes [] want = false
includes (part ∷ parts) want = if bytes_eq part want then true else includes parts want

unfoldable pub scope_includes : List ℕ → List ℕ → Bool
unfolding split_fields includes
scope_includes scope want = includes (split_fields scope) want
