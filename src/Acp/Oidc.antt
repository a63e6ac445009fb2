-- ===== src/Acp/Oidc.antt =====
-- pkg/acp/oidc: sessions in cookies, and the data that the authorization code flow carries.
pub mod Sealing
pub mod Cookie
pub mod Settings
pub mod Handler
pub mod Login
pub mod Serving
mod Tests
use hub_agent_kubernetes.Prelude.{
  ℕ, zero, suc, Char, code, String, Bool, true, false, ◌&&◌, not, Option, none, some, List, [], ◌∷◌,
  ◌++◌, ◌==◌, nat_eq, nat_beq, leb, ltb, ◌+◌, ◌%◌, if◌then◌else◌, GoMap, Run, ret, panic, length,
  take, drop, map,
}
use hub_agent_kubernetes.Strings.{runes}

abbrev pub Bytes : Type 0
Bytes = List ℕ

pub record StateData : Type 0 where
  pub redirect_id : String
  pub nonce : String
  pub origin_url : String
  pub code_verifier : String

-- `expiry` is an instant, as a number.
pub record SessionData : Type 0 where
  pub access_token : String
  pub token_type : String
  pub refresh_token : String
  pub id_token : String
  pub expiry : ℕ

pub record AuthStateCookie : Type 0 where
  pub path : String
  pub domain : String
  pub same_site : String
  pub secure : Bool

-- `refresh` is the `*bool`.
pub record AuthSession : Type 0 where
  pub path : String
  pub domain : String
  pub same_site : String
  pub secure : Bool
  pub refresh : Option Bool

pub data SameSite : Type 0 where
  lax : SameSite
  strict : SameSite
  none_mode : SameSite
  default_mode : SameSite

-- `MaxAge`: a number of seconds, or -1, by which the browser drops the cookie.
pub data Age : Type 0 where
  seconds : ℕ → Age
  expired : Age

-- `http.Cookie`
pub record HttpCookie : Type 0 where
  pub name : String
  pub value : Bytes
  pub path : String
  pub domain : String
  pub max_age : Age
  pub http_only : Bool
  pub same_site : SameSite
  pub secure : Bool

-- `strings.ToLower` on a code point, as far as the result is ASCII: besides the letters A to Z,
-- U+0130 and U+212A have an ASCII letter as their lower case.
abbrev to_lower : ℕ → ℕ
to_lower c =
    if leb b'A' c && leb c b'Z'
    then c + 32
    else if nat_beq c 0x130
    then b'i'
    else if nat_beq c 0x212a
    then b'k'
    else c

abbrev codes_beq : List ℕ → List ℕ → Bool
codes_beq [] [] = true
codes_beq [] (d ∷ t) = false
codes_beq (c ∷ s) [] = false
codes_beq (c ∷ s) (d ∷ t) = nat_beq c d && codes_beq s t

abbrev lower_is : String → String → Bool
lower_is raw word = codes_beq (map (λ c. to_lower (code c)) (runes raw)) (map code (runes word))

-- `parseSameSite`
unfoldable pub parse_same_site : String → SameSite
parse_same_site raw =
    if lower_is raw "lax"
    then lax
    else if lower_is raw "strict"
    then strict
    else if lower_is raw "none"
    then none_mode
    else default_mode

abbrev pub charset : Bytes
charset = map code (runes "abcdefghijklmnopqrstuvwxyzABCDEFGHIJKLMNOPQRSTUVWXYZ0123456789")

abbrev byte_at : Bytes → ℕ → ℕ
byte_at [] i = 0
byte_at (b ∷ bytes) zero = b
byte_at (b ∷ bytes) (suc i) = byte_at bytes i

-- `random.Bytes`: `draws` are the numbers that `rand.Int` gives, which are below the length of the
-- character set.
unfoldable pub random_bytes : ℕ → (ℕ → ℕ) → Bytes
random_bytes zero draws = []
random_bytes (suc n) draws =
    byte_at charset (draws zero % length charset) ∷ random_bytes n (λ i. draws (suc i))

-- What the package uses of `crypto/cipher` and `encoding/base64`: the size of the block cipher's
-- block, `XORKeyStream` of the counter mode of an initialization vector, and the raw URL encoding.
-- `none` is an error of the decoder, and `some` the buffer that it filled.
pub record Cipher : Type 0 where
  pub block_size : ℕ
  pub xor_key_stream : Bytes → Bytes → Bytes
  pub encode64 : Bytes → Bytes
  pub decode64 : Bytes → Option Bytes

-- `json.Marshal` and `json.Unmarshal` on a type; `none` is an error.
pub record Json (A : Type 0) : Type 0 where
  pub marshal : A → Option Bytes
  pub unmarshal : Bytes → Option A

-- What a reader of cookies gives: a nil pointer, an error, or a value.
pub data Got (A : Type 0) : Type 0 where
  absent : Got A
  broken : Got A
  got : A → Got A

-- The part of `encode` and of `newStateCookie` that encrypts; `iv` has the block's size.
unfoldable pub seal : {A : Type 0} → Cipher → Json A → (ℕ → ℕ) → A → Option Bytes
unfolding random_bytes
seal c json draws payload = elim (json.marshal payload) [
  | none ↦ none
  | some ser ↦
      let iv = random_bytes c.block_size draws in some (c.encode64 (iv ++ c.xor_key_stream iv ser))
]

-- The part of `decode` and of `getStateCookie` that decrypts. A payload that is shorter than a block
-- makes a slice of negative length, which panics.
unfoldable pub unseal : {A : Type 0} → Cipher → Json A → Bytes → Run (Option A)
unseal c json p = elim (c.decode64 p) [
  | none ↦ ret none
  | some decoded ↦
      if ltb (length decoded) c.block_size
      then panic
      else ret (
          json.unmarshal (c.xor_key_stream (take c.block_size decoded) (drop c.block_size decoded)))
]
