-- ===== src/Domain/Pkce.antt =====
-- internal/domain/pkce.go and password.go. The SHA-256 digest in base64url is the argument `s256`.
use kde_auth.Prelude.{ℕ, String, len, ◌||◌, not, ◌==◌, ltb, if◌then◌else◌}
use kde_auth.Domain.Errors.{Result, ok, err, invalid_grant, validation_error}

unfoldable pub verify_pkce_s256 : (String → String) → String → String → Result (Unit {0})
verify_pkce_s256 s256 challenge verifier =
    if challenge == "" || verifier == ""
    then err invalid_grant
    else if ltb (len verifier) 43 || ltb 128 (len verifier)
    then err invalid_grant
    else if not (s256 verifier == challenge)
    then err invalid_grant
    else ok tt

unfoldable pub parse_code_challenge_method : String → Result String
parse_code_challenge_method raw =
    if raw == "" || raw == "S256"
    then ok "S256"
    else err (validation_error "code_challenge_method" "only S256 is supported")

abbrev pub min_password_length : ℕ
min_password_length = 12

unfoldable pub new_plain_password : String → Result String
new_plain_password raw =
    if ltb (len raw) min_password_length
    then err (validation_error "password" "password must be at least 12 characters")
    else ok raw
