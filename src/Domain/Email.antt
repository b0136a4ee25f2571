-- ===== src/Domain/Email.antt =====
-- internal/domain/email.go
use kde_auth.Prelude.{String, Option, none, some, ◌==◌, if◌then◌else◌}
use kde_auth.Domain.Errors.{Result, ok, err, validation_error}
use kde_auth.Domain.Library.{Library}

address_matches : String → Option String → Result String
address_matches normalized none = err (validation_error "email" "invalid email address")
address_matches normalized (some address) =
    if address == normalized
    then ok normalized
    else err (validation_error "email" "invalid email address")

unfoldable pub parse_email : Library → String → Result String
unfolding address_matches
parse_email lib raw =
    let normalized = lib.trim_space (lib.to_lower raw) in
    if normalized == ""
    then err (validation_error "email" "email is required")
    else address_matches normalized (lib.parse_address normalized)
