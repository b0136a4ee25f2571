-- ===== src/Tests/Data.antt =====
-- A deployment, moments and states for the runs.
use kde_auth.Prelude.{ℕ, String, true, false, none, some, [], ◌∷◌, ◌==◌, concat}
use kde_auth.Domain.Library.{Library, Url}
use kde_auth.Domain.Client.{OauthClient, AccessMode, TokenEndpointAuthMethod}
use kde_auth.Domain.User.{User, Role, UserStatus, UserEmail, primary}
use kde_auth.Port.{Deployment, Moment}
use kde_auth.State.{
  State, CodeRow, RefreshRow, SessionRow, VerificationRow, ResetRow, TicketRow, empty,
}

abbrev pub some_url : Url
some_url = record {
  scheme = "https";
  opaque = "";
  host = "app.example";
  hostname = "app.example";
  path = "/cb";
  raw_query = "";
  fragment = "";
}

abbrev pub library : Library
library = record {
  to_lower = λ s. s;
  trim_space = λ s. s;
  parse_address = λ s. some s;
  parse_url = λ s. some some_url;
  is_package = λ s. true;
}

abbrev pub deployment : Deployment
deployment = record {
  library = library;
  lower = λ s. s;
  ilike = λ pattern t. concat "%" (concat t "%") == pattern;
  stands_before = λ a b. true;
  hash_token = λ s. concat "sha:" s;
  s256 = λ s. concat "s256:" s;
  verify_password = λ hash password. hash == concat "hash:" password;
  issuer = "https://auth.example";
  access_token = λ claims. some (concat "jwt:" claims.subject);
  with_code = λ uri code state. concat uri (concat "?code=" (concat code (concat "&state=" state)));
  registration_open = true;
}

-- Everything answers, and the draw is the given one.
abbrev pub moment : ℕ → String → Moment
moment now raw = record {
  now = now;
  random = some raw;
  uuid = concat "id:" raw;
  hash_password = λ password. some (concat "hash:" password);
  captcha = λ token address. none;
  fails = λ op. false;
}

abbrev pub ada : User
ada = record {
  id = "u1";
  email = "ada@example.org";
  password_hash = "hash:correct horse";
  role = Role.user;
  status = UserStatus.active;
  email_verified_at = some 5;
  created_at = 1;
  updated_at = 5;
}

abbrev pub root : User
root = record ada { id = "u0"; email = "root@example.org"; role = Role.admin }

abbrev pub ada_email : UserEmail
ada_email = record {
  id = "e1";
  user_id = "u1";
  email = "ada@example.org";
  role = primary;
  verified_at = some 5;
  created_at = 1;
  updated_at = 5;
}

abbrev pub desk : OauthClient
desk = record {
  id = "c1";
  client_id = "desk";
  client_secret_hash = "";
  name = "Desk";
  redirect_uris = "https://app.example/cb" ∷ [];
  access_mode = AccessMode.public;
  token_endpoint_auth_method = TokenEndpointAuthMethod.auth_none;
  android_package = "";
}

abbrev pub verifier : String
verifier = "0123456789012345678901234567890123456789abcdef"

abbrev pub code_of_ada : CodeRow
code_of_ada = record {
  code_hash = "sha:code";
  user_id = "u1";
  client_id = "desk";
  redirect_uri = "https://app.example/cb";
  scope = "openid offline_access";
  code_challenge = some (concat "s256:" verifier);
  code_challenge_method = some "S256";
  expires_at = 400;
  used_at = none;
}

abbrev pub refresh_of_ada : RefreshRow
refresh_of_ada = record {
  token_hash = "sha:refresh";
  user_id = "u1";
  client_id = "desk";
  scope = "openid offline_access";
  expires_at = 900;
  revoked_at = none;
}

abbrev pub session_of_ada : SessionRow
session_of_ada = record {
  token_hash = "sha:session";
  session = record { id = "s1"; user_id = "u1"; expires_at = 900 };
  revoked_at = none;
  created_at = 50;
}

abbrev pub verification_of_ada : VerificationRow
verification_of_ada = record {
  token_hash = "sha:verify";
  user_id = "u1";
  email = none;
  expires_at = 900;
  used_at = none;
}

abbrev pub reset_of_ada : ResetRow
reset_of_ada = record { token_hash = "sha:reset"; user_id = "u1"; expires_at = 900; used_at = none }

abbrev pub ticket_of_desk : TicketRow
ticket_of_desk = record {
  token_hash = "sha:ticket";
  client_id = "desk";
  expires_at = 900;
  used_at = none;
}

abbrev pub world : State
world = record empty {
  users = root ∷ ada ∷ [];
  emails = ada_email ∷ [];
  clients = desk ∷ [];
  sessions = session_of_ada ∷ [];
  codes = code_of_ada ∷ [];
  refreshes = refresh_of_ada ∷ [];
  verifications = verification_of_ada ∷ [];
  resets = reset_of_ada ∷ [];
  tickets = ticket_of_desk ∷ [];
}
