-- ===== src/Store.antt =====
-- internal/adapter/postgres: the tables of migrations/*.sql as lists of rows, with the mail that
-- has been handed to the mailer. Each repository method is one transaction.
pub mod Users
pub mod UserAdmin
pub mod Emails
pub mod Sessions
pub mod Tokens
pub mod Tickets
pub mod Accesses
pub mod Invites
pub mod Clients
