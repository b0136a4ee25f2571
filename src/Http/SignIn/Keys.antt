-- ===== src/Http/SignIn/Keys.antt =====
-- The keys of the limiter differ by their first letter.
use Prim.Native.Char.{code}
use Prim.Native.String.{String, [], ◌∷◌, ◌++◌}
use Prim.Native.Nat.{ℕ}
use mathlib.Core.Path.{ap, sym, ◌∙◌}
use mathlib.Core.Logic.{◌≢◌}
use native.Mathlib.Omega.{arith}
use text.Mathlib.TextLemmas.{cons-append}

abbrev first_code : String → ℕ
first_code [] = 0
first_code (c ∷ s) = code c

pub email-ip : (a b : String) → "email:" ++ b ≢ "ip:" ++ a
email-ip a b h =
    let e = ap first_code (sym (cons-append "e" "mail:" b) ∙ h ∙ cons-append "i" "p:" a) in
    absurd (omega (arith, e))

pub ip_given : (a : String) → "ip:" ++ a ≢ ""
ip_given a h = absurd (omega (arith, ap first_code (sym (cons-append "i" "p:" a) ∙ h)))

pub email_given : (a : String) → "email:" ++ a ≢ ""
email_given a h = absurd (omega (arith, ap first_code (sym (cons-append "e" "mail:" a) ∙ h)))
