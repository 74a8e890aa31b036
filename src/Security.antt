-- ===== src/Security.antt =====
-- app/services/auth.py and app/api/deps.py: who may do what.
pub mod Roles
pub mod Auth
pub mod Deps
pub mod Claims
pub mod Oidc
pub mod Examples
