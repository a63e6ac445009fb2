-- ===== src/Acp.antt =====
-- pkg/acp: the access control policies that a request must pass.
pub mod Token
pub mod Responses
pub mod ApiKey
pub mod BasicAuth
pub mod Oidc
pub mod Jwt
pub mod OauthIntro
pub mod Tests
