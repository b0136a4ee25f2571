-- ===== src/Tests.antt =====
-- Runs of the service at concrete inputs.
pub mod Data
mod Tokens
mod Flow
mod Accounts
mod Texts
mod Registration
mod Requests
mod Handlers
mod Listings
mod StartUp
mod Invitations
