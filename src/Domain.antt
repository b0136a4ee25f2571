-- ===== src/Domain.antt =====
-- internal/domain: entities, value objects and the rules on them.
pub mod Errors
pub mod Library
pub mod User
pub mod UserStats
pub mod Client
pub mod Invite
pub mod RedirectList
pub mod Scope
pub mod Token
pub mod Pkce
pub mod Email
