-- ===== src/Auth.antt =====
-- quish-auth: credentials, backends and the registry.
pub mod Types
pub mod Header
pub mod Registry
pub mod Totp
pub mod Oidc
pub mod Pubkey
