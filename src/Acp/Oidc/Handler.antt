-- ===== src/Acp/Oidc/Handler.antt =====
-- pkg/acp/oidc/oidc.go: the authorization code flow.
use hub_agent_kubernetes.Prelude.{
  ℕ, String, Bool, false, ◌&&◌, ◌||◌, not, Option, none, some, List, [], ◌∷◌, ◌++◌, ◌==◌, string_eq,
  if◌then◌else◌, GoMap, default,
}
use hub_agent_kubernetes.Strings.{runes, string_of, has_prefix, contains}
use hub_agent_kubernetes.Expr.{Claims}
use hub_agent_kubernetes.Expr.Predicates.{Predicate}
use hub_agent_kubernetes.Acp.Oidc.{Bytes, StateData, SessionData, HttpCookie, Cipher, Json}
use hub_agent_kubernetes.Acp.Oidc.Settings.{Config, validate, blank_session}
use hub_agent_kubernetes.Acp.Oidc.Cookie.{CookieSessionStore, RequestCookies}

abbrev pub max_cookie_size : ℕ
max_cookie_size = 4000

-- `fmt.Sprintf` of strings one after the other.
abbrev pub cat : List String → String
cat [] = ""
cat (s ∷ rest) = string_of (runes s ++ runes (cat rest))

-- What the code reads of `*oauth2.Token`; `id_token` is `Extra("id_token").(string)`.
pub record Token : Type 0 where
  pub access_token : String
  pub token_type : String
  pub refresh_token : String
  pub expiry : ℕ
  pub id_token : Option String

-- What the code reads of `*oidc.IDToken`; `claims` is what `Claims` unmarshals.
pub record IdToken : Type 0 where
  pub nonce : String
  pub claims : Option Claims

-- A parameter of a URL, as `oauth2.SetAuthURLParam` sets it; so do `oidc.Nonce` ("nonce") and
-- `oauth2.AccessTypeOffline` ("access_type").
abbrev pub Params : Type 0
Params = List (String × String)

-- The identity provider, behind `IDTokenVerifier` and `OAuthProvider`; `none` is an error.
pub record Provider : Type 0 where
  pub verify : String → Option IdToken
  pub auth_code_url : String → Params → String
  pub exchange : String → Params → Option Token
  pub renew : SessionData → Option Token

-- What the code reads of `*url.URL`.
pub record Url : Type 0 where
  pub host : String
  pub path : String
  pub query_get : String → String

-- The clock, `url.Parse`, `encoding/json`, and the numbers drawn for each random text.
pub record World : Type 0 where
  pub now : ℕ
  pub parse_url : String → Option Url
  pub session_json : Json SessionData
  pub state_json : Json StateData
  pub draws_redirect_id : ℕ → ℕ
  pub draws_nonce : ℕ → ℕ
  pub draws_state : ℕ → ℕ
  pub draws_session : ℕ → ℕ

pub record Handler : Type 0 where
  pub name : String
  pub provider : Provider
  pub session : CookieSessionStore
  pub block : Cipher
  pub validate_claims : Option Predicate
  pub cfg : Config

-- The predicate of `NewHandler`; the outer `none` is an error of `expr.Parse`.
abbrev pub claims_predicate : (String → Option Predicate) → String → Option (Option Predicate)
claims_predicate parse claims =
    if claims == "" then some none else elim (parse claims) [ none ↦ none | some p ↦ some (some p) ]

-- `NewHandler`. `new_provider` is `oidc.NewProvider` with the verifier and the OAuth client for the
-- configuration, `parse` is `expr.Parse`, and `new_cipher` is `aes.NewCipher`.
unfoldable pub new_handler :
    (Config → Option Provider)
    → (String → Option Predicate)
    → (String → Option Cipher)
    → Config
    → String
    → Option Handler
unfolding validate
new_handler new_provider parse new_cipher given name = elim (validate given) [
  | none ↦ none
  | some cfg ↦ elim (new_provider cfg) [
    | none ↦ none
    | some provider ↦ elim (claims_predicate parse cfg.claims) [
      | none ↦ none
      | some pred ↦ elim (new_cipher cfg.session_key) [
        | none ↦ none
        | some block ↦ some (record {
          name = name;
          provider = provider;
          session = record {
            name = cat (name ∷ "-session" ∷ []);
            cfg = default blank_session cfg.session;
            max_size = max_cookie_size;
          };
          block = block;
          validate_claims = pred;
          cfg = cfg;
        })
      ]
    ]
  ]
]

pub record Request : Type 0 where
  pub header_get : String → String
  pub cookies : RequestCookies
  pub get_cookie : String → Option Bytes

-- What is written to the response: the cookies set, the headers that `forwardHeader` replaces,
-- `Authorization`, the `Cookie` header that `RemoveCookie` leaves, `url_redirect`, and the target of
-- `http.Redirect`.
pub record Answer : Type 0 where
  pub status : ℕ
  pub cookies : List HttpCookie
  pub forwarded : GoMap String (List String)
  pub authorization : Option String
  pub cookie_header : Option RequestCookies
  pub url_redirect : Option String
  pub location : Option String

-- A status alone, after the cookies set before.
abbrev pub plain : ℕ → List HttpCookie → Answer
plain status cookies = record {
  status = status;
  cookies = cookies;
  forwarded = [];
  authorization = none;
  cookie_header = none;
  url_redirect = none;
  location = none;
}

abbrev pub redirect : String → List HttpCookie → Answer
redirect url cookies = record (plain 302 cookies) { location = some url }

unfoldable pub should_redirect : Request → Bool
unfolding contains
should_redirect req =
    let forwarded_method = req.header_get "X-Forwarded-Method" in
    if forwarded_method == "POST"
      || forwarded_method == "DELETE"
      || forwarded_method == "PATCH"
      || forwarded_method == "PUT"
    then false
    else not (contains (runes (req.header_get "X-Forwarded-Uri")) (runes "favicon.ico"))

unfoldable pub resolve_url : Request → String → String
unfolding has_prefix
resolve_url req u =
    if u == ""
    then u
    else if has_prefix (runes u) (runes "http://") || has_prefix (runes u) (runes "https://")
    then u
    else if has_prefix (runes u) (runes "/")
    then cat
        (req.header_get "X-Forwarded-Proto" ∷ "://" ∷ req.header_get "X-Forwarded-Host" ∷ u ∷ [])
    else cat (req.header_get "X-Forwarded-Proto" ∷ "://" ∷ u ∷ [])

abbrev pub same_place : Option Url → Option Url → Bool
same_place (some o) (some ot) = o.host == ot.host && o.path == ot.path
same_place o ot = false

unfoldable pub equal_url : World → String → String → Bool
equal_url w original other = same_place (w.parse_url original) (w.parse_url other)

unfoldable pub forwarded_url : Request → String
forwarded_url req = cat (
    req.header_get "X-Forwarded-Proto"
    ∷ "://"
    ∷ req.header_get "X-Forwarded-Host"
    ∷ req.header_get "X-Forwarded-Uri"
    ∷ [])
