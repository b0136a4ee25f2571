-- ===== src/Lib.antt =====
-- A model of the authentication service and its theorems.
--
-- The service signs users in, registers them, lets administrators manage accounts, clients and
-- invites, and is an OAuth 2 authorization server. Its use cases (internal/usecase) work on the
-- repositories of internal/adapter/postgres with the rules of internal/domain.
--
-- Domain and its children model internal/domain: Domain.Errors errors.go; Domain.User user.go,
-- user_email.go, admin.go and session.go; Domain.Client, Domain.Invite and Domain.RedirectList
-- client.go; Domain.Scope and Domain.Token token.go; Domain.Pkce pkce.go and password.go;
-- Domain.Email email.go. Domain.Library is the record of what they take from net/url, net/mail,
-- regexp and the Unicode tables of strings.
-- State is the database: one list of rows for each table, and the letters that were sent.
-- Exec is a method: it takes the state and returns a value or an error and the new state. What was
-- written before an error stays written, except inside `transaction`.
-- Store and its children model internal/adapter/postgres: Store.Users user_repo.go and the writing
-- methods of user_admin_repo.go, Store.UserAdmin its lists and counts, Store.Emails
-- user_email_repo.go, Store.Sessions session_repo.go,
-- Store.Tokens and its children token_repo.go, Store.Tickets registration_ticket_repo.go,
-- Store.Accesses app_access_repo.go, Store.Invites invite_repo.go, Store.Clients client_repo.go.
-- A unique index is a guard of the inserting method, and a deleted user takes the rows along that
-- refer to him, as the foreign keys of the schema do.
-- UseCase and its children model internal/usecase: UseCase.Login login.go, UseCase.Authorize and
-- UseCase.Exchange oauth.go, UseCase.Register and UseCase.Verify register.go, UseCase.Passwords
-- password_reset.go and change_password.go, UseCase.AccountEmails account_emails.go,
-- UseCase.Invites invite.go, UseCase.AdminUsers and UseCase.AppAccess admin.go, UseCase.AdminClients
-- admin_clients.go, UseCase.Captcha the call with which some of them begin.
-- Service is the data type of the requests and the state after one request, or a history of them.
-- Service.Preserved is the interface between an invariant and the service: it lists the repository
-- methods that write, and an invariant that each of them keeps is kept by every history.
-- RateLimit models internal/platform/ratelimit/limiter.go.
-- Http and its children model internal/adapter/http: Http.Router server.go, Http.Replies
-- response/json.go, and the handlers Http.SignIn login.go, Http.SignOut authorize.go and the Logout of
-- verify_logout.go, Http.AppLinks authorize_redirect.go, Http.Address client_ip.go, Http.Tokens
-- token.go, change_password.go and account_emails.go, Http.Registration register.go,
-- password_reset.go and the rest of verify_logout.go, Http.Invites invite.go, Http.Admin and its
-- children admin.go and admin_auth.go, Http.Documents health.go and oidc.go. A handler takes the
-- request as net/http has parsed it and the state, with a limiter where it has one, and gives the
-- response and the new state; a page is the name of its template and its data.
-- Platform models what runs at the start and under the ports: Platform.Config
-- internal/platform/config/config.go, Platform.Migrate migrate.go and seed.go of
-- internal/adapter/postgres, Platform.Crypto argon2.go and a part of rsa_jwt.go of
-- internal/adapter/crypto.
-- Tests runs the definitions and the theorems at concrete inputs.
--
-- What is not in the repository is a parameter: `Deployment` holds what an installation fixes (the
-- library functions, SHA-256, the verification of passwords, the token issuer), `Moment` what the
-- surroundings answer during one request (the clock, the random token, the identifier that the
-- database draws, the password hash, the captcha, and for each repository method and each letter
-- whether it fails outside the program). Where a theorem relies on one of them, it is a hypothesis:
-- that two tokens do not have the same hash (`DrawsOther`), that calls do not fail (`Available`).
--
-- A request reads the clock as one instant and draws one random token at most, as every use case
-- here does. The methods of one request run without another request between them, but for a post of
-- the login form: other requests act between its check, its use case and its answer (`Meanwhile`), and
-- Http.SignIn.Traffic interleaves the steps of any number of them. The limiter of the added addresses
-- is used in the same way, within one step. Each repository
-- method is a transaction, and the single use of tokens rests on the lock and the update inside
-- one such method. Times are natural numbers of seconds. Texts are the native strings; their length
-- is counted as `len` counts it, and a scope is walked over code points, which are its bytes where
-- it is ASCII. Every loop is a structural recursion over a list, so no fuel is needed; the one over
-- the bytes of a number in Platform.Crypto has the number itself as fuel. An ORDER BY is an insertion
-- sort: rows that are equal in the order may stand otherwise in the database. The limit and the offset
-- of a list are natural numbers where the source has integers of 64 bits: a negative one is 0 there,
-- and the multiplication wraps around.
--
-- `Site` holds what the handlers take from net, net/url, the configuration and the token issuer. The
-- page of the sign-in draws a random token of its own for its registration link, so such a request has
-- two moments.
--
-- Not modelled: the templates and the middleware of the router (input and output); the ports
-- (interfaces without code); hashing, signing and parsing of tokens and keys, the clock, the captcha
-- and the mail servers (libraries and the network); main, which wires the parts.
mod Prelude
pub mod Domain
pub mod Port
pub mod State
pub mod Exec
pub mod Store
pub mod UseCase
pub mod Service
pub mod RateLimit
pub mod Http
pub mod Platform
mod Tests
