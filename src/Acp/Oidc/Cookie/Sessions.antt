-- ===== src/Acp/Oidc/Cookie/Sessions.antt =====
-- What `Get` of pkg/acp/oidc/cookie.go reads of the cookies that `Create` set.
use hub_agent_kubernetes.Prelude.{
  ℕ, zero, suc, ◌+◌, ◌-◌, ◌*◌, ◌≤◌, ◌<◌, String, true, false, Option, none, some, List, [], ◌∷◌,
  ◌≡◌, refl, ap, ◌∙◌, string_eq, GoMap, lookup, length, arith, ==_refl, leb, ltb, All, ret,
  Bool-cases, inl, inr,
}
use hub_agent_kubernetes.Strings.{runes, byte_len}
use hub_agent_kubernetes.Acp.Oidc.{Bytes, SessionData, HttpCookie, Cipher, Json, got, unseal}
use hub_agent_kubernetes.Acp.Oidc.Sealing.{CipherLaws, RoundTrips, encoded_len, unseal-seal}
use hub_agent_kubernetes.Acp.Oidc.Cookie.{
  CookieSessionStore, chunk_bytes, chunk_name, number_from, session_cookie, split_value, create,
  is_session, get_cookies_bytes, get, max_cookies,
}
use hub_agent_kubernetes.Acp.Oidc.Cookie.Chunks.{
  flatten, nth, held, flatten-chunk_bytes, length-chunk_bytes, name-is_session,
  chunk_name-is_session, lookup-number_from, lookup-number_from_name, collect_from-flatten,
}

abbrev pub size : CookieSessionStore → ℕ
size s = byte_len (runes s.name)

-- The value is in one cookie, or in chunks.
pub data IsSplit (s : CookieSessionStore) (value : Bytes) (cookies : List HttpCookie) : Type 0 where
  single :
      length value + size s ≤ s.max_size
      → cookies ≡ session_cookie s s.name value ∷ []
      → IsSplit s value cookies
  chunked :
      (chunks : List Bytes)
      → s.max_size < length value + size s
      → flatten chunks ≡ value
      → All (λ c. length c ≤ s.max_size - (size s + 3)) chunks
      → size s + 3 < s.max_size
      → cookies ≡ number_from s 1 chunks
      → IsSplit s value cookies

-- The bytes of the session that a chunk takes.
abbrev pub chunk_size : CookieSessionStore → ℕ
chunk_size s = s.max_size - (size s + 3)

pub length-number_from :
    (s : CookieSessionStore) (i : ℕ) (chunks : List Bytes)
    → length (number_from s i chunks) ≡ length chunks
unfolding number_from
length-number_from s i [] = refl
length-number_from s i (c ∷ chunks) = ap suc (length-number_from s (i + 1) chunks)

-- A name that leaves room for a byte never panics.
pub split_value_total :
    (s : CookieSessionStore) (value : Bytes) (n : ℕ)
    → size s + 3 < s.max_size
    → length value ≤ n * chunk_size s
    → 0 < n
    → (cookies : List HttpCookie) × (split_value s value ≡ ret cookies)
      × IsSplit s value cookies
      × (length cookies ≤ n)
unfolding split_value
split_value_total s value n room few pos =
    elim (Bool-cases (leb (length value + size s) s.max_size)) [
      | inl fits ↦ (
        session_cookie s s.name value ∷ [],
        rw fits,
        single (ground (arith, fits)) refl,
        omega arith,
      )
      | inr large ↦
          let enough : ltb s.max_size (size s + 3) ≡ false = ground arith in
          let (chunks, e) = chunked_total (chunk_size s) (omega arith) in
          let (whole, within) = flatten-chunk_bytes value (chunk_size s) chunks e in
          (
            number_from s 1 chunks,
            rw (large, enough, e),
            chunked chunks (ground (arith, large)) whole within room refl,
            omega (
              arith,
              length-number_from s 1 chunks,
              length-chunk_bytes value (chunk_size s) n chunks e few,
            ),
          )
    ]
  where
    chunked_total :
        (lim : ℕ) → 0 < lim → (chunks : List Bytes) × (chunk_bytes value lim ≡ ret chunks)
    chunked_total zero h = absurd (omega arith)
    chunked_total (suc lim) h = unfold chunk_bytes in (_, refl)

abbrev pub else_from : Option Bytes → Option Bytes → Option Bytes
else_from none o = o
else_from (some v) o = some v

-- What a browser sends that had the old cookies and was sent the new ones.
abbrev pub after : GoMap String Bytes → List HttpCookie → String → Option Bytes
after old new name = else_from (lookup name (held new)) (lookup name old)

-- None of the cookies has a name that the store takes for its own.
abbrev pub IsForeign : CookieSessionStore → GoMap String Bytes → Type 0
IsForeign s old = (name : String) → is_session s name ≡ true → lookup name old ≡ none

else_from-none : (o : Option Bytes) → else_from o none ≡ o
else_from-none none = refl
else_from-none (some v) = refl

after_foreign :
    (s : CookieSessionStore) (old : GoMap String Bytes) (new : List HttpCookie) (name : String)
    → IsForeign s old
    → is_session s name ≡ true
    → after old new name ≡ lookup name (held new)
after_foreign s old new name foreign mine =
    ap (else_from (lookup name (held new))) (foreign name mine)
    ∙ else_from-none (lookup name (held new))

-- A request with the cookies of a value and foreign ones has this value.
read_split :
    (s : CookieSessionStore) (value : Bytes) (old : GoMap String Bytes) (cookies : List HttpCookie)
    → IsSplit s value cookies
    → length cookies < max_cookies
    → IsForeign s old
    → get_cookies_bytes s (after old cookies) ≡ value
unfolding get_cookies_bytes lookup
read_split s value old cookies (single fits e) few foreign =
    let found : after old cookies s.name ≡ some value = rw (e, after) (rw (==_refl s.name)) in
    rw (found, get_cookies_bytes)
read_split s value old cookies (chunked chunks large whole within room e) few foreign =
    let missing : after old cookies s.name ≡ none =
      after_foreign s old cookies s.name foreign (name-is_session s)
      ∙ rw e (lookup-number_from_name s chunks 1) in
    let each : (k : ℕ) → after old cookies (chunk_name s.name (1 + k)) ≡ nth chunks k = λ k.
      after_foreign s old cookies (chunk_name s.name (1 + k)) foreign
        (chunk_name-is_session s (1 + k))
      ∙ rw e (lookup-number_from s chunks 1 k) in
    let n : length cookies ≡ length chunks = ap length e ∙ length-number_from s 1 chunks in
    rw (missing, get_cookies_bytes)
      (collect_from-flatten (after old cookies) s.name chunks 179 1 each (omega arith) ∙ whole)

split_value-single :
    (s : CookieSessionStore) (value : Bytes)
    → length value + size s ≤ s.max_size
    → split_value s value ≡ ret (session_cookie s s.name value ∷ [])
unfolding split_value
split_value-single s value fits = ground arith

-- The plain name comes first.
read_shadowed :
    (s : CookieSessionStore) (v v' : Bytes) (cookies : List HttpCookie)
    → IsSplit s v' cookies
    → s.max_size < length v' + size s
    → get_cookies_bytes s (after (held (session_cookie s s.name v ∷ [])) cookies) ≡ v
unfolding get_cookies_bytes lookup
read_shadowed s v v' cookies (single fits e) large = absurd (omega arith)
read_shadowed s v v' cookies (chunked chunks _ whole within room e) large =
    let found : after (held (session_cookie s s.name v ∷ [])) cookies s.name ≡ some v =
      rw (e, after, lookup-number_from_name s chunks 1, ==_refl s.name) in
    rw (found, get_cookies_bytes)

module _ (c : Cipher) (laws : CipherLaws c) (json : Json SessionData) (back : RoundTrips json)
    (s : CookieSessionStore) where
  get-unseal :
      (get_cookie : String → Option Bytes) (v : Bytes) (sess : SessionData)
      → get_cookies_bytes s get_cookie ≡ v
      → 0 < length v
      → unseal c json v ≡ ret (some sess)
      → get c json s get_cookie ≡ ret (got sess)
  unfolding get
  get-unseal get_cookie [] sess e pos u = absurd (omega arith)
  get-unseal get_cookie (b ∷ v) sess e pos u = rw (e, get, u)

  -- A session that can be marshalled is stored, under a name that leaves room for one byte at least
  -- and if its encoding fills at most 179 chunks, and a browser that had no cookie whose name starts
  -- with that name and has got those that were set is then read as having this session.
  pub get-create :
      (old : GoMap String Bytes) (draws : ℕ → ℕ) (sess : SessionData) (ser : Bytes)
      → IsForeign s old
      → json.marshal sess ≡ some ser
      → size s + 3 < s.max_size
      → encoded_len (c.block_size + length ser) ≤ 179 * chunk_size s
      → (cookies : List HttpCookie) × (create c json draws s sess ≡ ret (some cookies))
        × (get c json s (after old cookies) ≡ ret (got sess))
  unfolding create
  get-create old draws sess ser foreign m room few =
      let (v, sealed, unsealed, pos, len) = unseal-seal c laws json back draws sess ser m in
      let (cookies, e, parts, n) = split_value_total s v 179 room (omega arith) (omega arith) in
      (
        cookies,
        rw (sealed, create, e),
        get-unseal (after old cookies) v sess
            (read_split s v old cookies parts (omega arith) foreign) pos unsealed,
      )

  -- A session that fills one cookie hides a later one that needs several: `Create` leaves the cookie
  -- under the plain name as it is, and a browser that got both answers is still read as having the
  -- earlier session.
  pub get-create_shadowed :
      (draws draws' : ℕ → ℕ) (sess sess' : SessionData) (ser ser' : Bytes)
      → json.marshal sess ≡ some ser
      → json.marshal sess' ≡ some ser'
      → size s + 3 < s.max_size
      → encoded_len (c.block_size + length ser) + size s ≤ s.max_size
      → s.max_size < encoded_len (c.block_size + length ser') + size s
      → encoded_len (c.block_size + length ser') ≤ 179 * chunk_size s
      → (first second : List HttpCookie) × (create c json draws s sess ≡ ret (some first))
        × (create c json draws' s sess' ≡ ret (some second))
        × (get c json s (after (held first) second) ≡ ret (got sess))
  unfolding create
  get-create_shadowed draws draws' sess sess' ser ser' m m' room fits large few =
      let (v, sealed, unsealed, pos, len) = unseal-seal c laws json back draws sess ser m in
      let (v', sealed', unsealed', pos', len') =
        unseal-seal c laws json back draws' sess' ser' m' in
      let (cookies, e, parts, n) = split_value_total s v' 179 room (omega arith) (omega arith) in
      let one : split_value s v ≡ ret (session_cookie s s.name v ∷ []) =
        split_value-single s v (omega arith) in
      (
        session_cookie s s.name v ∷ [],
        cookies,
        rw (sealed, create, one),
        rw (sealed', create, e),
        get-unseal (after (held (session_cookie s s.name v ∷ [])) cookies) v sess
            (read_shadowed s v v' cookies parts (omega arith)) pos unsealed,
      )
