-- ===== src/Acp/Jwt.antt =====
-- pkg/acp/jwt: the keys that tokens are verified with, and the requests that carry a token.
pub mod KeySets
pub mod Settings
pub mod Handler
mod Tests
use hub_agent_kubernetes.Prelude.{ℕ, String}

-- A public key, as an opaque value.
abbrev pub PublicKey : Type 0
PublicKey = ℕ

-- What the code reads of `jose.JSONWebKey`.
pub record Jwk : Type 0 where
  pub key_id : String
  pub key : PublicKey

-- What a signature is checked against.
pub data VerificationKey : Type 0 where
  secret : String → VerificationKey
  public : PublicKey → VerificationKey
