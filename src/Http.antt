-- ===== src/Http.antt =====
-- internal/adapter/http: requests and responses. What net/http has parsed of a request is its
-- data: the first value of a query or form field ("" where it is missing), a header, the cookie.
pub mod Replies
pub mod Address
pub mod AppLinks
pub mod Handling
pub mod SignIn
pub mod SignOut
pub mod Tokens
pub mod Registration
pub mod Invites
pub mod Admin
pub mod Documents
pub mod Router
use kde_auth.Prelude.{ℕ, String, Bool, Option, none, List, []}
use kde_auth.Domain.Client.{OauthClient}
use kde_auth.Domain.Invite.{Invite}
use kde_auth.Domain.User.{User}
use kde_auth.Domain.UserStats.{UserStats}
use kde_auth.UseCase.AdminUsers.Listing.{AdminUsersResult}
use kde_auth.Port.{AccessClaims, Deployment}
use kde_auth.UseCase.AccountEmails.{AccountEmailView}

pub data Method : Type 0 where
  get post delete other : Method

pub record HttpRequest : Type 0 where
  pub method : Method
  -- r.URL.Query().Get
  pub query : String → String
  -- url.Values.Encode of the query
  pub encoded_query : String
  -- r.ParseForm() gave no error
  pub form_parses : Bool
  -- r.FormValue
  pub form : String → String
  pub header : String → String
  pub remote_addr : String
  -- The cookie kde_session
  pub cookie : Option String
  -- The fields of the JSON body, unless decoding fails
  pub json : Option (String → String)

-- What the handlers take from net, net/url, the configuration and the token issuer.
pub record Site : Type 0 where
  pub deployment : Deployment
  pub open deployment use *
  -- net.SplitHostPort: the host, unless it fails
  pub split_host_port : String → Option String
  -- url.QueryEscape
  pub query_escape : String → String
  -- url.ParseQuery and Get: the raw query and the key
  pub query_value : String → String → String
  -- The number that strconv.Atoi returns, where a negative one is 0
  pub atoi : String → ℕ
  -- port.TokenIssuer.ParseAccessToken: the instant, the token
  pub parse_access_token : ℕ → String → Option AccessClaims
  -- base64.RawURLEncoding, and the public key: its modulus in bytes and its exponent
  pub base64_url : List ℕ → String
  pub modulus : List ℕ
  pub exponent : ℕ
  -- The answer of the database to a ping
  pub pings : Bool
  pub session_ttl : ℕ
  pub cookie_secure : Bool
  pub turnstile_key : String

pub data Json : Type 0 where
  text : String → Json
  number : ℕ → Json
  flag : Bool → Json
  texts : List String → Json
  key_set : List (String × String) → Json
  emails : List AccountEmailView → Json

-- render.PageData
pub record PageData : Type 0 where
  pub title : String
  pub error : String
  pub success : String
  pub email : String
  pub next : String
  pub token : String
  pub ticket : String
  pub register_url : String
  pub turnstile_site_key : String

pub record InvitePageData : Type 0 where
  pub title : String
  pub error : String
  pub success : String
  pub token : String
  pub email : String
  pub app_name : String
  pub client_id : String
  pub user_exists : Bool
  pub logged_in : Bool
  pub email_matches : Bool
  pub already_has : Bool
  pub login_next : String
  pub turnstile_site_key : String

-- adminPageData; a value that the source leaves zero is missing here.
pub record AdminPageData : Type 0 where
  pub title : String
  pub error : String
  pub success : String
  pub actor : Option User
  pub stats : Option UserStats
  pub result : Option AdminUsersResult
  pub clients : List OauthClient
  pub invites : List Invite
  pub new_secret : String
  pub new_client_id : String
  pub edit_client_id : String
  pub edit_redirect_uris : String
  pub edit_android_package : String
  pub accept_url : String
  pub query : String
  pub status : String
  pub role : String
  pub client : String
  pub page : ℕ
  pub prev_page : ℕ
  pub next_page : ℕ

abbrev pub empty_admin_page : AdminPageData
empty_admin_page = record {
  title = "";
  error = "";
  success = "";
  actor = none;
  stats = none;
  result = none;
  clients = [];
  invites = [];
  new_secret = "";
  new_client_id = "";
  edit_client_id = "";
  edit_redirect_uris = "";
  edit_android_package = "";
  accept_url = "";
  query = "";
  status = "";
  role = "";
  client = "";
  page = 0;
  prev_page = 0;
  next_page = 0;
}

pub data Cookie : Type 0 where
  kept : Cookie
  session : (token : String) (expires_at : ℕ) (secure : Bool) → Cookie
  cleared : (secure : Bool) → Cookie

pub data Body : Type 0 where
  no_body : Body
  json : List (String × Json) → Body
  plain : String → Body
  page : (template : String) → PageData → Body
  admin_page : (template : String) → AdminPageData → Body
  invite_page : (template : String) → InvitePageData → Body

pub record Response : Type 0 where
  pub status : ℕ
  pub location : String
  pub cookie : Cookie
  pub body : Body
