-- ===== src/Domain/Library.antt =====
-- What internal/domain takes from packages outside the repository: net/url, net/mail, regexp and
-- the Unicode tables of strings.
use kde_auth.Prelude.{String, Bool, Option}

-- The fields of a `url.URL` that the source reads.
pub record Url : Type 0 where
  pub scheme : String
  pub opaque : String
  pub host : String
  pub hostname : String
  pub path : String
  pub raw_query : String
  pub fragment : String

pub record Library : Type 0 where
  -- strings.ToLower, strings.TrimSpace
  pub to_lower : String → String
  pub trim_space : String → String
  -- The address part of mail.ParseAddress, unless it fails.
  pub parse_address : String → Option String
  -- url.Parse, unless it fails.
  pub parse_url : String → Option Url
  -- androidPackagePattern.MatchString
  pub is_package : String → Bool
