-- ===== src/Store/Tokens.antt =====
-- internal/adapter/postgres/token_repo.go
pub mod Codes
pub mod Refreshes
pub mod Verifications
pub mod Resets
use kde_auth.Prelude.{String, Option, none, some, ◌==◌, if◌then◌else◌}

abbrev pub null_if_empty : String → Option String
null_if_empty s = if s == "" then none else some s

-- COALESCE(column, '')
abbrev pub coalesce : Option String → String
coalesce none = ""
coalesce (some s) = s
