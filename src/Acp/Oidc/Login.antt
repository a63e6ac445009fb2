-- ===== src/Acp/Oidc/Login.antt =====
-- pkg/acp/oidc/oidc.go: how a session begins, with the redirection to the provider and its callback.
pub mod State
pub mod Callback
pub mod Refuses
use hub_agent_kubernetes.Prelude.{
  ℕ, zero, suc, ◌%◌, Char, String, Bool, true, false, ◌&&◌, ◌||◌, not, Option, none, some, List, [],
  ◌∷◌, ◌++◌, ◌==◌, string_eq, ltb, if◌then◌else◌, GoMap, default, Run, ret, panic, ◌>>=◌, length,
  map,
}
use hub_agent_kubernetes.Strings.{runes, string_of}
use hub_agent_kubernetes.Expr.{Claims}
use hub_agent_kubernetes.Expr.Predicates.{Predicate}
use hub_agent_kubernetes.Expr.Pluck.{ok, unsupported, pluck_claims}
use hub_agent_kubernetes.Acp.Oidc.{
  Bytes, StateData, SessionData, AuthStateCookie, AuthSession, HttpCookie, seconds, expired,
  default_mode, parse_same_site, Cipher, Json, Got, absent, broken, got, seal, unseal, charset,
}
use hub_agent_kubernetes.Acp.Oidc.Settings.{Config, blank_state_cookie}
use hub_agent_kubernetes.Acp.Oidc.Cookie.{create, delete, get, remove_cookie}
use hub_agent_kubernetes.Acp.Oidc.Handler.{
  Token, IdToken, Params, Provider, Url, World, Handler, Request, Answer, plain, redirect, cat,
  should_redirect, resolve_url, equal_url, forwarded_url,
}

-- `*h.cfg.Session.Refresh`; a nil pointer panics.
unfoldable pub refresh_enabled : Config → Run Bool
refresh_enabled cfg = elim cfg.session [
  | none ↦ panic
  | some s ↦ elim s.refresh [ none ↦ panic | some b ↦ ret b ]
]

-- `IsExpired`
unfoldable pub is_expired : World → SessionData → Bool
is_expired w sess = ltb sess.expiry w.now

abbrev nth_char : List Char → ℕ → Char
nth_char [] i = "a"
nth_char (c ∷ chars) zero = c
nth_char (c ∷ chars) (suc i) = nth_char chars i

abbrev letters : List Char
letters = runes "abcdefghijklmnopqrstuvwxyzABCDEFGHIJKLMNOPQRSTUVWXYZ0123456789"

random_chars : ℕ → (ℕ → ℕ) → List Char
random_chars zero draws = []
random_chars (suc n) draws =
    nth_char letters (draws zero % length letters) ∷ random_chars n (λ i. draws (suc i))

-- `random.String`
unfoldable pub random_string : ℕ → (ℕ → ℕ) → String
unfolding random_chars
random_string n draws = string_of (random_chars n draws)

abbrev pub state_name : Handler → String
state_name h = cat (h.name ∷ "-state" ∷ [])

-- `newStateCookie`; `none` is an error. A `StateCookie` that is nil panics.
unfoldable pub new_state_cookie : Handler → World → StateData → Run (Option HttpCookie)
unfolding seal
new_state_cookie h w state = elim (seal h.block w.state_json w.draws_state state) [
  | none ↦ ret none
  | some value ↦ elim h.cfg.state_cookie [
    | none ↦ panic
    | some cfg ↦ ret (
        some (record {
          name = state_name h;
          value = value;
          path = cfg.path;
          domain = cfg.domain;
          max_age = seconds 600;
          http_only = true;
          same_site = parse_same_site cfg.same_site;
          secure = cfg.secure;
        }))
  ]
]

-- `clearStateCookie`: the cookie that it sets. A `StateCookie` that is nil panics.
unfoldable pub clear_state_cookie : Handler → Run HttpCookie
clear_state_cookie h = elim h.cfg.state_cookie [
  | none ↦ panic
  | some cfg ↦ ret (record {
    name = state_name h;
    value = [];
    path = "/";
    domain = cfg.domain;
    max_age = expired;
    http_only = false;
    same_site = default_mode;
    secure = false;
  })
]

-- `getStateCookie`
unfoldable pub get_state_cookie : Handler → World → Request → Run (Got StateData)
unfolding unseal
get_state_cookie h w req = elim (req.get_cookie (state_name h)) [
  | none ↦ ret absent
  | some value ↦ unseal h.block w.state_json value >>= λ state. elim state [
    | none ↦ ret broken
    | some s ↦ ret (got s)
  ]
]

abbrev pub refresh_params : Bool → Params
refresh_params true = ("access_type", "offline") ∷ ("prompt", "consent") ∷ []
refresh_params false = []

-- The end of `redirectToProvider`; `refresh` is whether refresh tokens are asked for.
abbrev pub to_provider : Handler → Request → String → StateData → HttpCookie → Bool → Answer
to_provider h req redirect_url state cookie refresh =
    let opts : Params =
      (("redirect_uri", redirect_url) ∷ ("nonce", state.nonce) ∷ [])
      ++ (refresh_params refresh ++ h.cfg.auth_params) in
    let url = h.provider.auth_code_url state.redirect_id opts in
    if req.header_get "From" == "nginx"
    then record (plain 401 (cookie ∷ [])) { url_redirect = some (cat (url ∷ "&fix=1" ∷ [])) }
    else redirect url (cookie ∷ [])

-- `redirectToProvider`, after the cookies set before.
unfoldable pub redirect_to_provider :
    Handler → World → Request → String → List HttpCookie → Run Answer
unfolding random_string new_state_cookie refresh_enabled
redirect_to_provider h w req redirect_url cookies =
    let state : StateData = record {
      redirect_id = random_string 20 w.draws_redirect_id;
      nonce = random_string 20 w.draws_nonce;
      origin_url = forwarded_url req;
      code_verifier = "";
    } in
    new_state_cookie h w state >>= λ made. elim made [
      | none ↦ ret (plain 500 cookies)
      | some cookie ↦ refresh_enabled h.cfg >>= λ refresh.
          let answer = to_provider h req redirect_url state cookie refresh in
          ret (record answer { cookies = cookies ++ cookie ∷ [] })
    ]

abbrev pub session_of : Token → String → SessionData
session_of tok id_token = record {
  access_token = tok.access_token;
  token_type = tok.token_type;
  refresh_token = tok.refresh_token;
  id_token = id_token;
  expiry = tok.expiry;
}

-- The end of `handleProviderCallback`, by what `Create` gives.
unfoldable pub begin : Handler → StateData → Option (List HttpCookie) → Run Answer
unfolding clear_state_cookie
begin h state none = ret (plain 500 [])
begin h state (some cookies) =
    clear_state_cookie h >>= λ cleared. ret (redirect state.origin_url (cookies ++ cleared ∷ []))

-- The part of `handleProviderCallback` from the exchange of the code on.
unfoldable pub exchange_code : Handler → World → StateData → String → String → Run Answer
unfolding create begin
exchange_code h w state redirect_url code =
    elim (h.provider.exchange code (("redirect_uri", redirect_url) ∷ [])) [
      | none ↦ ret (plain 500 [])
      | some tok ↦ elim tok.id_token [
        | none ↦ ret (plain 500 [])
        | some raw ↦ elim (h.provider.verify raw) [
          | none ↦ ret (plain 400 [])
          | some id_token ↦
              if not (id_token.nonce == state.nonce)
              then ret (plain 400 [])
              else create h.block w.session_json w.draws_session h.session (session_of tok raw)
                >>= begin h state
        ]
      ]
    ]

-- `handleProviderCallback`. A URL that is not parsed is nil, and `u.Query()` panics.
unfoldable pub handle_provider_callback : Handler → World → Request → String → Run Answer
unfolding get_state_cookie exchange_code
handle_provider_callback h w req redirect_url = get_state_cookie h w req >>= λ found. elim found [
  | broken ↦ ret (plain 400 [])
  | absent ↦ ret (plain 400 [])
  | got state ↦ elim (w.parse_url (req.header_get "X-Forwarded-Uri")) [
    | none ↦ panic
    | some u ↦
        if not (u.query_get "state" == state.redirect_id)
        then ret (plain 400 [])
        else exchange_code h w state redirect_url (u.query_get "code")
  ]
]

-- The part of `ServeHTTP` for a request with no session that may be used.
unfoldable pub log_in : Handler → World → Request → Run Answer
unfolding resolve_url equal_url forwarded_url handle_provider_callback should_redirect
    redirect_to_provider
log_in h w req =
    let redirect_url = resolve_url req h.cfg.redirect_url in
    if equal_url w (forwarded_url req) redirect_url
    then handle_provider_callback h w req redirect_url
    else if not (should_redirect req)
    then ret (plain 401 [])
    else redirect_to_provider h w req redirect_url []
