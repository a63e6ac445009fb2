-- ===== src/Acp/Oidc/Cookie/Fits.antt =====
-- The sizes of the cookies that `Create` of pkg/acp/oidc/cookie.go sets.
use hub_agent_kubernetes.Prelude.{
  ℕ, ◌+◌, ◌*◌, ◌≤◌, ◌<◌, Char, String, some, List, [], ◌∷◌, ◌++◌, ◌≡◌, ap, length, arith, All, ret,
  ◌∙◌,
}
use hub_agent_kubernetes.Strings.{runes, byte_len}
use hub_agent_kubernetes.Strings.Decimal.{byte_len-decimal, decimal}
use hub_agent_kubernetes.Acp.Oidc.{Bytes, SessionData, HttpCookie, Cipher, Json}
use hub_agent_kubernetes.Acp.Oidc.Sealing.{CipherLaws, RoundTrips, encoded_len, unseal-seal}
use hub_agent_kubernetes.Acp.Oidc.Cookie.{CookieSessionStore, chunk_name, number_from, create, dash}
use hub_agent_kubernetes.Acp.Oidc.Cookie.Chunks.{chunk_name-runes}
use hub_agent_kubernetes.Acp.Oidc.Cookie.Sessions.{
  size, chunk_size, IsSplit, single, chunked, length-number_from, split_value_total,
}

byte_len-append : (s t : List Char) → byte_len (s ++ t) ≡ byte_len s + byte_len t
byte_len-append [] t = omega arith
byte_len-append (c ∷ s) t = omega (arith, byte_len-append s t)

byte_len-chunk_name :
    (name : String) (i : ℕ)
    → i < 100
    → byte_len (runes (chunk_name name i)) ≤ byte_len (runes name) + 3
byte_len-chunk_name name i few = omega (
  arith,
  ap byte_len (chunk_name-runes name i),
  byte_len-append (runes name) (dash ∷ decimal i),
  byte_len-decimal i few,
)

-- The name and the value are within the size of the store.
abbrev pub Fits : CookieSessionStore → HttpCookie → Type 0
Fits s cookie = byte_len (runes cookie.name) + length cookie.value ≤ s.max_size

number_from-Fits :
    (s : CookieSessionStore) (chunks : List Bytes) (i : ℕ)
    → i + length chunks ≤ 100
    → size s + 3 < s.max_size
    → All (λ c. length c ≤ chunk_size s) chunks
    → All (Fits s) (number_from s i chunks)
unfolding number_from
number_from-Fits s [] i few room within = tt
number_from-Fits s (c ∷ chunks) i few room within = (
  omega (arith, byte_len-chunk_name s.name i (omega arith), within.0),
  number_from-Fits s chunks (i + 1) (omega arith) room within.1,
)

IsSplit-Fits :
    (s : CookieSessionStore) (v : Bytes) (cookies : List HttpCookie)
    → IsSplit s v cookies
    → length cookies < 100
    → All (Fits s) cookies
IsSplit-Fits s v cookies (single fits e) few = rw e (omega arith, tt)
IsSplit-Fits s v cookies (chunked chunks large whole within room e) few =
    let n : length cookies ≡ length chunks = ap length e ∙ length-number_from s 1 chunks in
    rw e (number_from-Fits s chunks 1 (omega arith) room within)

-- A session that can be marshalled is stored, under a name that leaves room for one byte at least
-- and if its encoding fills at most 99 chunks, in at most 99 cookies, and the name and the value of
-- each together are within the store's maximal size.
pub create-Fits :
    (c : Cipher) (laws : CipherLaws c) (json : Json SessionData) (back : RoundTrips json)
    (s : CookieSessionStore) (draws : ℕ → ℕ) (sess : SessionData) (ser : Bytes)
    → json.marshal sess ≡ some ser
    → size s + 3 < s.max_size
    → encoded_len (c.block_size + length ser) ≤ 99 * chunk_size s
    → (cookies : List HttpCookie) × (create c json draws s sess ≡ ret (some cookies))
      × (length cookies ≤ 99)
      × All (Fits s) cookies
unfolding create
create-Fits c laws json back s draws sess ser m room few =
    let (v, sealed, unsealed, pos, len) = unseal-seal c laws json back draws sess ser m in
    let (cookies, e, parts, n) = split_value_total s v 99 room (omega arith) (omega arith) in
    (cookies, rw (sealed, create, e), n, IsSplit-Fits s v cookies parts (omega arith))
