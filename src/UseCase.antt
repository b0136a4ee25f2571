-- ===== src/UseCase.antt =====
-- internal/usecase: one function for each method of a use case.
pub mod Captcha
pub mod AppAccess
pub mod Login
pub mod Authorize
pub mod Exchange
pub mod Register
pub mod Verify
pub mod Passwords
pub mod AccountEmails
pub mod Invites
pub mod AdminUsers
pub mod SignedOut
pub mod AdminClients
