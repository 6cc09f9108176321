-- ===== src/Oidc.antt =====
-- OpenID Connect login (authorization code flow with PKCE): client/app/services/oidc.server.ts.
pub mod Encoding
pub mod Config
pub mod Cache
pub mod Claims
pub mod Token
pub mod Flow
