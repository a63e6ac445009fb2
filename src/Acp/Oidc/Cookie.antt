-- ===== src/Acp/Oidc/Cookie.antt =====
-- pkg/acp/oidc/cookie.go: sessions that are kept in the cookies of a request.
pub mod Chunks
pub mod Sessions
pub mod Fits
use hub_agent_kubernetes.Prelude.{
  ℕ, zero, suc, ◌+◌, ◌-◌, Char, String, Bool, true, false, not, Option, none, some, List, [], ◌∷◌,
  ◌++◌, leb, ltb, if◌then◌else◌, GoMap, Run, ret, panic, ◌>>=◌, length, take, drop, map, select,
}
use hub_agent_kubernetes.Strings.{runes, string_of, byte_len, has_prefix}
use hub_agent_kubernetes.Strings.Decimal.{decimal}
use hub_agent_kubernetes.Acp.Oidc.{
  Bytes, SessionData, AuthSession, HttpCookie, seconds, expired, default_mode, parse_same_site,
  Cipher, Json, Got, absent, broken, got, seal, unseal,
}

abbrev pub max_cookies : ℕ
max_cookies = 180

-- `CookieSessionStore`, its `block` and `rand` aside.
pub record CookieSessionStore : Type 0 where
  pub name : String
  pub cfg : AuthSession
  pub max_size : ℕ

-- The loop of `chunkBytes`; the fuel is the number of bytes, and each round takes one at least.
chunks_from : ℕ → Bytes → ℕ → List Bytes
chunks_from zero buf lim = []
chunks_from (suc fuel) [] lim = []
chunks_from (suc fuel) (b ∷ buf) lim =
    take lim (b ∷ buf) ∷ chunks_from fuel (drop lim (b ∷ buf)) lim

-- `chunkBytes`. A limit of 0 divides by 0.
unfoldable pub chunk_bytes : Bytes → ℕ → Run (List Bytes)
unfolding chunks_from
chunk_bytes b zero = panic
chunk_bytes b (suc lim) = ret (chunks_from (length b) b (suc lim))

abbrev pub dash : Char
dash = "-"

-- `fmt.Sprintf("%s-%d", s.name, i)`
unfoldable pub chunk_name : String → ℕ → String
unfolding decimal
chunk_name name i = string_of (runes name ++ dash ∷ decimal i)

-- A cookie that `Create` sets.
abbrev pub session_cookie : CookieSessionStore → String → Bytes → HttpCookie
session_cookie s name value = record {
  name = name;
  value = value;
  path = s.cfg.path;
  domain = s.cfg.domain;
  max_age = seconds 86400;
  http_only = true;
  same_site = parse_same_site s.cfg.same_site;
  secure = s.cfg.secure;
}

-- The loop of `Create`, from number `i` on.
unfoldable pub number_from : CookieSessionStore → ℕ → List Bytes → List HttpCookie
unfolding chunk_name
number_from s i [] = []
number_from s i (val ∷ chunks) =
    session_cookie s (chunk_name s.name i) val ∷ number_from s (i + 1) chunks

-- The cookies that `Create` sets for an encoded session. A chunk size that is not positive panics:
-- `buf.Next` slices to a negative length.
unfoldable pub split_value : CookieSessionStore → Bytes → Run (List HttpCookie)
unfolding chunk_bytes number_from
split_value s value =
    let size = byte_len (runes s.name) in
    if leb (length value + size) s.max_size
    then ret (session_cookie s s.name value ∷ [])
    else if ltb s.max_size (size + 3)
    then panic
    else chunk_bytes value (s.max_size - (size + 3)) >>= λ chunks. ret (number_from s 1 chunks)

-- `Create` and `Update`: the cookies that they set; `none` is an error.
unfoldable pub create :
    Cipher
    → Json SessionData
    → (ℕ → ℕ)
    → CookieSessionStore
    → SessionData
    → Run (Option (List HttpCookie))
unfolding seal split_value
create c json draws s payload = elim (seal c json draws payload) [
  | none ↦ ret none
  | some value ↦ split_value s value >>= λ cookies. ret (some cookies)
]

-- `r.Cookies()`, names and values in their order.
abbrev pub RequestCookies : Type 0
RequestCookies = List (String × Bytes)

abbrev pub is_session : CookieSessionStore → String → Bool
is_session s name = has_prefix (runes name) (runes s.name)

-- `Delete`: the cookies that it sets.
unfoldable pub delete : CookieSessionStore → RequestCookies → List HttpCookie
unfolding has_prefix
delete s [] = []
delete s ((name, value) ∷ cs) =
    let rest = delete s cs in
    if is_session s name
    then record {
      name = name;
      value = [];
      path = s.cfg.path;
      domain = s.cfg.domain;
      max_age = expired;
      http_only = false;
      same_site = default_mode;
      secure = false;
    }
      ∷ rest
    else rest

-- `RemoveCookie`: the cookies that the request is passed on with.
unfoldable pub remove_cookie : CookieSessionStore → RequestCookies → RequestCookies
unfolding has_prefix
remove_cookie s cs = select (λ c. not (is_session s c.0)) cs

-- The loop of `getCookiesBytes` from number `i` on, with the rounds left. `get_cookie` is what
-- `getCookie` finds in the request.
unfoldable pub collect_from : ℕ → (String → Option Bytes) → String → ℕ → Bytes
unfolding chunk_name
collect_from zero get_cookie name i = []
collect_from (suc rounds) get_cookie name i = elim (get_cookie (chunk_name name i)) [
  | none ↦ []
  | some b ↦ b ++ collect_from rounds get_cookie name (i + 1)
]

-- `getCookiesBytes`
unfoldable pub get_cookies_bytes : CookieSessionStore → (String → Option Bytes) → Bytes
unfolding collect_from
get_cookies_bytes s get_cookie = elim (get_cookie s.name) [
  | some b ↦ b
  | none ↦ collect_from (max_cookies - 1) get_cookie s.name 1
]

-- `Get`
unfoldable pub get :
    Cipher → Json SessionData → CookieSessionStore → (String → Option Bytes) → Run (Got SessionData)
unfolding get_cookies_bytes unseal
get c json s get_cookie = elim (get_cookies_bytes s get_cookie) [
  | [] ↦ ret absent
  | b ∷ bytes ↦ unseal c json (b ∷ bytes) >>= λ sess. elim sess [
    | none ↦ ret broken
    | some data_got ↦ ret (got data_got)
  ]
]
