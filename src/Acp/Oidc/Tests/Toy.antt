-- ===== src/Acp/Oidc/Tests/Toy.antt =====
-- A cipher, an encoding and a store for the runs of pkg/acp/oidc.
use hub_agent_kubernetes.Prelude.{
  ℕ, zero, suc, ◌+◌, ◌-◌, ◌*◌, ◌/◌, ◌%◌, true, ◌&&◌, Option, none, some, [], ◌∷◌, ◌++◌, ◌≡◌, refl,
  ap, ◌==◌, string_eq, if◌then◌else◌, length, take, map, arith, length-append, nat_beq, str_iff,
  default,
}
use hub_agent_kubernetes.Acp.Oidc.{Bytes, SessionData, Cipher, Json}
use hub_agent_kubernetes.Acp.Oidc.Sealing.{CipherLaws, RoundTrips, encoded_len}
use hub_agent_kubernetes.Acp.Oidc.Cookie.{CookieSessionStore}

-- Numbers 2 k and 2 k + 1 change places.
abbrev swap_pair : ℕ → ℕ
swap_pair n = if nat_beq (n % 2) 0 then n + 1 else n - 1

swap_pair_twice : (n : ℕ) → swap_pair (swap_pair n) ≡ n
swap_pair_twice n = ground arith

abbrev pub zeros : ℕ → Bytes
zeros zero = []
zeros (suc n) = 0 ∷ zeros n

abbrev pub toy_cipher : Cipher
toy_cipher = record {
  block_size = 1;
  xor_key_stream = λ iv b. map swap_pair b;
  encode64 = λ b. b ++ zeros (encoded_len (length b) - length b);
  decode64 = λ b. some (take (length b * 6 / 8) b);
}

map_twice : (b : Bytes) → map swap_pair (map swap_pair b) ≡ b
map_twice [] = refl
map_twice (n ∷ b) = rw (swap_pair_twice n, map_twice b)

length-map : (b : Bytes) → length (map swap_pair b) ≡ length b
length-map [] = refl
length-map (n ∷ b) = ap suc (length-map b)

length-zeros : (n : ℕ) → length (zeros n) ≡ n
length-zeros zero = refl
length-zeros (suc n) = ap suc (length-zeros n)

take_whole : (b : Bytes) (n k : ℕ) → k ≡ length b → take k (b ++ zeros n) ≡ b
take_whole [] n zero h = refl
take_whole [] n (suc k) h = absurd (omega arith)
take_whole (x ∷ b) n zero h = absurd (omega arith)
take_whole (x ∷ b) n (suc k) h = ap (◌∷◌ x) (take_whole b n k (omega arith))

pub toy_laws : CipherLaws toy_cipher
toy_laws = record {
  block_pos = omega arith;
  xor_xor = λ iv b. map_twice b;
  length_xor = λ iv b. length-map b;
  decode_encode = λ b. ap some (
      take_whole b (encoded_len (length b) - length b)
        (length (b ++ zeros (encoded_len (length b) - length b)) * 6 / 8)
        (omega (
          arith,
          length-append {0} b (zeros (encoded_len (length b) - length b)),
          length-zeros (encoded_len (length b) - length b),
        )));
  length_encode = λ b. omega (
    arith,
    length-append {0} b (zeros (encoded_len (length b) - length b)),
    length-zeros (encoded_len (length b) - length b),
  );
}

abbrev pub expiring : ℕ → SessionData
expiring n = record {
  access_token = "";
  token_type = "";
  refresh_token = "";
  id_token = "";
  expiry = n;
}

-- Sessions without texts, written as so many bytes as the instant has seconds.
abbrev pub toy_json : Json SessionData
toy_json = record {
  marshal = λ s.
      if s.access_token == "" && (s.token_type == "" && (s.refresh_token == "" && s.id_token == ""))
      then some (zeros s.expiry)
      else none;
  unmarshal = λ b. some (expiring (length b));
}

pub toy_back : RoundTrips toy_json
toy_back a b h = ground (
  arith,
  str_iff a.access_token "",
  str_iff a.token_type "",
  str_iff a.refresh_token "",
  str_iff a.id_token "",
  length-zeros a.expiry,
  ap (λ (o : Option Bytes). length (default [] o)) h,
)

abbrev pub store : CookieSessionStore
store = record {
  name = "s";
  cfg = record {
    path = "/";
    domain = "";
    same_site = "Strict";
    secure = true;
    refresh = some true;
  };
  max_size = 12;
}

abbrev pub draws : ℕ → ℕ
draws i = i + 7
