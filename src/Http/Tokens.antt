-- ===== src/Http/Tokens.antt =====
-- internal/adapter/http/handler/token.go, change_password.go and account_emails.go
pub mod Grants
use Prim.Native.String.{len, slice}
use kde_auth.Prelude.{
  ℕ, String, Bool, true, false, Option, none, some, List, [], ◌∷◌, ◌++◌, not, ◌==◌, starts_with,
  if◌then◌else◌,
}
use kde_auth.Domain.Errors.{Error, Result, ok, err, unauthorized, too_many_attempts}
use kde_auth.Domain.User.{role_text}
use kde_auth.Port.{Moment, AccessClaims}
use kde_auth.State.{State}
use kde_auth.RateLimit.{Limiter, too_many, hit}
use kde_auth.UseCase.Exchange.{TokenInput, TokenResult, exchange_token, UserInfo, user_info}
use kde_auth.UseCase.Passwords.{ChangeInput, change_password}
use kde_auth.UseCase.AccountEmails.{
  AddEmailInput, list_emails, add_email, cancel_email, delete_email,
}
use kde_auth.Http.{HttpRequest, Method, post, Site, Json, text, number, flag, emails, Response}
use kde_auth.Http.Address.{client_ip}
use kde_auth.Http.Handling.{Handler, World, respond, call}
use kde_auth.Http.Replies.{write_json, write_error, method_not_allowed, bad_request}

abbrev pub is_post : Method → Bool
is_post post = true
is_post _ = false

abbrev pub fail : Error → Handler
fail e = respond (write_error e)

abbrev pub status_ok : Response
status_ok = write_json 200 (("status", text "ok") ∷ [])

abbrev pub invalid_json : Response
invalid_json = write_json 400 (("error", text "invalid_json") ∷ [])

-- A request whose body is JSON.
abbrev pub with_json : Option (String → String) → ((String → String) → Handler) → Handler
with_json none next s = (invalid_json, s)
with_json (some body) next s = next body s

-- A request of the user that the bearer token names.
abbrev pub with_subject : Option String → (String → Handler) → Handler
with_subject none next s = (write_error unauthorized, s)
with_subject (some id) next s = next id s

module _ (site : Site) where
  abbrev pub token_input : HttpRequest → TokenInput
  token_input r = record {
    grant_type = r.form "grant_type";
    code = r.form "code";
    redirect_uri = r.form "redirect_uri";
    client_id = r.form "client_id";
    client_secret = r.form "client_secret";
    code_verifier = r.form "code_verifier";
    refresh_token = r.form "refresh_token";
  }

  abbrev pub token_body : TokenResult → List (String × Json)
  token_body result =
      ("access_token", text result.access_token)
      ∷ ("token_type", text result.token_type)
      ∷ ("expires_in", number result.expires_in)
      ∷ ("scope", text result.scope)
      ∷ (if not (result.refresh_token == "")
          then ("refresh_token", text result.refresh_token) ∷ []
          else [])

  unfoldable pub serve_token : Moment → HttpRequest → Handler
  serve_token at r s =
      let answer =
        call (exchange_token site.deployment at (token_input r))
          (λ result. respond (write_json 200 (token_body result))) fail s in
      if not (is_post r.method)
      then (method_not_allowed, s)
      else if not r.form_parses
      then (bad_request, s)
      else answer

  unfoldable pub bearer_token : HttpRequest → String
  bearer_token r =
      let header = r.header "Authorization" in
      if not (starts_with header "Bearer ")
      then ""
      else site.trim_space (slice header (len "Bearer ") (len header))

  abbrev pub user_info_body : UserInfo → List (String × Json)
  user_info_body info =
      ("sub", text info.sub)
      ∷ ("email", text info.email)
      ∷ ("email_verified", flag info.email_verified)
      ∷ ("role", text (role_text info.role))
      ∷ []

  abbrev info_of : Moment → Option AccessClaims → Handler
  info_of at none = fail unauthorized
  info_of at (some claims) =
      call (user_info site.deployment at claims)
        (λ info. respond (write_json 200 (user_info_body info))) fail

  -- What ParseAccessToken fails with is `ErrUnauthorized`.
  unfoldable pub serve_user_info : Moment → HttpRequest → Handler
  serve_user_info at r s =
      let token = bearer_token r in
      let answer = info_of at (site.parse_access_token at.now token) s in
      if token == "" then (write_error unauthorized, s) else answer

  -- The user that the bearer token names.
  unfoldable pub subject : Moment → HttpRequest → Option String
  subject at r =
      if bearer_token r == ""
      then none
      else elim (site.parse_access_token at.now (bearer_token r)) [
        | none ↦ none
        | some claims ↦ some claims.subject
      ]

  abbrev pub change_input : String → (String → String) → ChangeInput
  change_input id body = record {
    user_id = id;
    current_password = body "current_password";
    new_password = body "new_password";
    new_password_confirm = body "new_password_confirm";
  }

  abbrev pub done : {A : Type 0} → A → Handler
  done _ = respond status_ok

  unfoldable pub serve_change_password : Moment → HttpRequest → Handler
  serve_change_password at r s =
      let answer =
        with_subject (subject at r)
          (λ id.
            with_json r.json
              (λ body. call (change_password site.deployment at (change_input id body)) done fail))
          s in
      if not (is_post r.method) then (method_not_allowed, s) else answer

  unfoldable pub emails_list : Moment → HttpRequest → Handler
  emails_list at r = with_subject (subject at r) (λ id.
      call (list_emails site.deployment at id)
        (λ views. respond (write_json 200 (("emails", emails views) ∷ []))) fail)

  abbrev captcha_of : (String → String) → String
  captcha_of body =
      if body "captcha_token" == "" then body "cf-turnstile-response" else body "captcha_token"

  abbrev pub add_input : HttpRequest → String → (String → String) → AddEmailInput
  add_input r id body = record {
    user_id = id;
    email = body "email";
    captcha_token = captcha_of body;
    remote_ip = client_ip site r;
  }

  abbrev add_keys : HttpRequest → String → List String
  add_keys r id = client_ip site r ∷ id ∷ []

  -- The hit is counted before the use case runs.
  abbrev add_body :
      Moment → HttpRequest → String → State → Limiter → Option (String → String) → Response × World
  add_body at r id s l none = (invalid_json, (s, l))
  add_body at r id s l (some body) =
      let (response, s') = call (add_email site.deployment at (add_input r id body)) done fail s in
      (response, (s', hit l at.now (add_keys r id)))

  abbrev add_for : Moment → HttpRequest → String → World → Response × World
  add_for at r id w =
      let (blocked, l') = too_many w.1 at.now (add_keys r id) in
      if blocked then (write_error too_many_attempts, (w.0, l')) else add_body at r id w.0 l' r.json

  unfoldable pub emails_add : Moment → HttpRequest → World → Response × World
  emails_add at r w = elim (subject at r) [
    | none ↦ (write_error unauthorized, w)
    | some id ↦ add_for at r id w
  ]

  unfoldable pub emails_cancel : Moment → HttpRequest → Handler
  emails_cancel at r =
      with_subject (subject at r) (λ id. call (cancel_email site.deployment at id) done fail)

  unfoldable pub emails_delete : Moment → HttpRequest → Handler
  emails_delete at r = with_subject (subject at r) (λ id.
      with_json r.json (λ body. call (delete_email site.deployment at id (body "email")) done fail))
