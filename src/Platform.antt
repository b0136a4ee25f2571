-- ===== src/Platform.antt =====
-- What the program does when it starts, and what stands under its ports: internal/platform/config,
-- migrate.go and seed.go of internal/adapter/postgres, and internal/adapter/crypto.
pub mod Config
pub mod Migrate
pub mod Crypto
