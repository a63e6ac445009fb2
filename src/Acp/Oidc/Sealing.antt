-- ===== src/Acp/Oidc/Sealing.antt =====
-- The encryption of cookies in pkg/acp/oidc: what was sealed is unsealed.
use hub_agent_kubernetes.Prelude.{
  ℕ, zero, suc, ◌<◌, false, some, [], ◌∷◌, ◌++◌, ◌+◌, ◌*◌, ◌/◌, ◌≡◌, refl, ap, length, take, drop,
  length-append, arith, ltb, ret,
}
use hub_agent_kubernetes.Acp.Oidc.{Bytes, Cipher, Json, random_bytes, seal, unseal}

-- `base64.RawURLEncoding.EncodedLen`
abbrev pub encoded_len : ℕ → ℕ
encoded_len n = (n * 8 + 5) / 6

-- What is documented of the ciphers and the encoding: a block is not empty, the stream of a counter
-- mode is its own inverse and keeps the length, and decoding gives back what was encoded.
pub record CipherLaws (c : Cipher) : Type 0 where
  pub block_pos : 0 < c.block_size
  pub xor_xor : (iv b : Bytes) → c.xor_key_stream iv (c.xor_key_stream iv b) ≡ b
  pub length_xor : (iv b : Bytes) → length (c.xor_key_stream iv b) ≡ length b
  pub decode_encode : (b : Bytes) → c.decode64 (c.encode64 b) ≡ some b
  pub length_encode : (b : Bytes) → length (c.encode64 b) ≡ encoded_len (length b)

-- `json.Unmarshal` gives back what `json.Marshal` wrote.
abbrev pub RoundTrips : {A : Type 0} → Json A → Type 0
RoundTrips {A} json = (a : A) (b : Bytes) → json.marshal a ≡ some b → json.unmarshal b ≡ some a

pub length-random_bytes : (n : ℕ) (draws : ℕ → ℕ) → length (random_bytes n draws) ≡ n
unfolding random_bytes
length-random_bytes zero draws = refl
length-random_bytes (suc n) draws = omega (arith, length-random_bytes n (λ i. draws (suc i)))

take_prefix : (n : ℕ) (s t : Bytes) → length s ≡ n → take n (s ++ t) ≡ s
take_prefix zero [] t h = refl
take_prefix zero (x ∷ s) t h = absurd (omega arith)
take_prefix (suc n) [] t h = absurd (omega arith)
take_prefix (suc n) (x ∷ s) t h = ap (◌∷◌ x) (take_prefix n s t (omega arith))

drop_prefix : (n : ℕ) (s t : Bytes) → length s ≡ n → drop n (s ++ t) ≡ t
drop_prefix zero [] t h = refl
drop_prefix zero (x ∷ s) t h = absurd (omega arith)
drop_prefix (suc n) [] t h = absurd (omega arith)
drop_prefix (suc n) (x ∷ s) t h = drop_prefix n s t (omega arith)

module _ {A : Type 0} (c : Cipher) (laws : CipherLaws c) (json : Json A)
    (back : RoundTrips json) where
  -- What `unseal` gives of what `seal` made, which is not empty.
  pub unseal-seal :
      (draws : ℕ → ℕ) (a : A) (ser : Bytes)
      → json.marshal a ≡ some ser
      → (v : Bytes) × (seal c json draws a ≡ some v)
        × (unseal c json v ≡ ret (some a))
        × (0 < length v)
        × (length v ≡ encoded_len (c.block_size + length ser))
  unfolding seal unseal
  unseal-seal draws a ser m =
      let iv = random_bytes c.block_size draws in
      let body = c.xor_key_stream iv ser in
      let size = length-random_bytes c.block_size draws in
      let long : ltb (length (iv ++ body)) c.block_size ≡ false =
        ground (arith, length-append {0} iv body, size) in
      (
        c.encode64 (iv ++ body),
        rw (m, seal),
        rw
            (
              laws.decode_encode (iv ++ body),
              long,
              take_prefix c.block_size iv body size,
              drop_prefix c.block_size iv body size,
              laws.xor_xor iv ser,
              unseal,
            )
            (ap ret (back a ser m)),
        omega (
          arith,
          laws.length_encode (iv ++ body),
          length-append {0} iv body,
          size,
          laws.block_pos,
        ),
        omega (
          arith,
          laws.length_encode (iv ++ body),
          length-append {0} iv body,
          size,
          laws.length_xor iv ser,
        ),
      )
