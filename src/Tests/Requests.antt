-- ===== src/Tests/Requests.antt =====
-- A site and requests for the runs of the handlers.
use kde_auth.Prelude.{String, true, Option, none, some, List, [], ◌∷◌, ◌==◌, if◌then◌else◌}
use kde_auth.Port.{AccessClaims}
use kde_auth.RateLimit.{Limiter}
use kde_auth.Domain.User.{Role}
use kde_auth.State.{State, SessionRow}
use kde_auth.Http.{HttpRequest, Method, Site}
use kde_auth.Tests.Data.{deployment, world, session_of_ada}

abbrev claims : AccessClaims
claims = record {
  subject = "u1";
  audience = "desk";
  email = "ada@example.org";
  email_verified = true;
  role = Role.user;
  expires_at = 500;
}

abbrev pub site : Site
site = record {
  deployment = deployment;
  split_host_port = λ address. some address;
  query_escape = λ s. s;
  query_value = λ query key. "";
  atoi = λ s. 0;
  parse_access_token = λ now token. if token == "jwt:u1" then some claims else none;
  base64_url = λ bytes. "AQAB";
  modulus = 193 ∷ [];
  exponent = 65537;
  pings = true;
  session_ttl = 600;
  cookie_secure = true;
  turnstile_key = "";
}

-- The value of a key; "" where it is missing.
abbrev value_in : List (String × String) → String → String
value_in [] key = ""
value_in ((k, v) ∷ rest) key = let later = value_in rest key in if k == key then v else later

abbrev pub request :
    Method → (query form header : List (String × String)) → (cookie : Option String) → HttpRequest
request method query form header cookie = record {
  method = method;
  query = value_in query;
  encoded_query = "";
  form_parses = true;
  form = value_in form;
  header = value_in header;
  remote_addr = "192.0.2.1";
  cookie = cookie;
  json = some (value_in form);
}

abbrev pub limiter : Limiter
limiter = record { max = 5; window = 900; hits = [] }

-- The administrator is signed in, too.
abbrev pub session_of_root : SessionRow
session_of_root = record session_of_ada {
  token_hash = "sha:root";
  session = record { id = "s0"; user_id = "u0"; expires_at = 900 };
}

abbrev pub office : State
office = record world { sessions = session_of_root ∷ session_of_ada ∷ [] }
