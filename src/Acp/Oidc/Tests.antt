-- ===== src/Acp/Oidc/Tests.antt =====
-- Runs of pkg/acp/oidc.
mod Toy
mod Cookies
mod Flow
