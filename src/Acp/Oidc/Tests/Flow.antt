-- ===== src/Acp/Oidc/Tests/Flow.antt =====
-- Runs of pkg/acp/oidc/oidc.go with a provider made for it.
use hub_agent_kubernetes.Prelude.{
  false, none, some, [], ◌∷◌, ◌++◌, ◌≡◌, refl, ◌==◌, string_eq, if◌then◌else◌, ret,
}
use hub_agent_kubernetes.Expr.{end}
use hub_agent_kubernetes.Acp.Oidc.{StateData, expired, default_mode, seal}
use hub_agent_kubernetes.Acp.Oidc.Cookie.{create, get}
use hub_agent_kubernetes.Acp.Oidc.{unseal}
use hub_agent_kubernetes.Expr.Pluck.{pluck_claims}
use hub_agent_kubernetes.Acp.Oidc.Settings.{Config}
use hub_agent_kubernetes.Acp.Oidc.Cookie.{
  session_cookie, split_value, get_cookies_bytes, remove_cookie,
}
use hub_agent_kubernetes.Acp.Oidc.Handler.{
  Token, Provider, Url, World, Handler, Request, Answer, plain, redirect, resolve_url,
  forwarded_url, equal_url, should_redirect,
}
use hub_agent_kubernetes.Acp.Oidc.Login.{
  refresh_enabled, is_expired, begin, clear_state_cookie, get_state_cookie, exchange_code,
  handle_provider_callback,
}
use hub_agent_kubernetes.Acp.Oidc.Login.Callback.{Begins, handle_provider_callback-Begins}
use hub_agent_kubernetes.Acp.Oidc.Serving.{
  maybe_refresh_session, authorize, serve_session, serve_http,
}
use hub_agent_kubernetes.Acp.Oidc.Serving.Authorized.{LetsThrough, serve_http-LetsThrough}
use hub_agent_kubernetes.Acp.Oidc.Tests.Toy.{toy_cipher, toy_json, zeros, store, draws}

abbrev blank_url : Url
blank_url = record { host = "h"; path = "/callback"; query_get = λ key. "aaaaaaaaaaaaaaaaaaaa" }

abbrev token : Token
token = record {
  access_token = "";
  token_type = "";
  refresh_token = "";
  expiry = 5;
  id_token = some "";
}

abbrev provider : Provider
provider = record {
  verify = λ raw. some (record { nonce = "n"; claims = some end });
  auth_code_url = λ state params. state;
  exchange = λ code params. some token;
  renew = λ sess. some token;
}

abbrev started : StateData
started = record {
  redirect_id = "aaaaaaaaaaaaaaaaaaaa";
  nonce = "n";
  origin_url = "http://h/page";
  code_verifier = "";
}

abbrev world : World
world = record {
  now = 3;
  parse_url = λ url. some blank_url;
  session_json = toy_json;
  state_json = record { marshal = λ state. none; unmarshal = λ b. some started };
  draws_redirect_id = draws;
  draws_nonce = draws;
  draws_state = draws;
  draws_session = draws;
}

abbrev config : Config
config = record {
  issuer = "i";
  client_id = "c";
  client_secret = "x";
  secret = none;
  redirect_url = "/callback";
  logout_url = "";
  scopes = [];
  auth_params = [];
  state_cookie = some (record { path = "/"; domain = "h"; same_site = "lax"; secure = false });
  session = some store.cfg;
  session_key = "0123456789abcdef";
  forward_headers = [];
  claims = "";
}

abbrev handler : Handler
handler = record {
  name = "mw";
  provider = provider;
  session = store;
  block = toy_cipher;
  validate_claims = none;
  cfg = config;
}

-- A cookie holds a session that lasts until the instant 4.
abbrev visit : Request
visit = record {
  header_get = λ name. "";
  cookies = [];
  get_cookie = λ name. if name == "s" then some (0 ∷ zeros 4 ++ zeros 2) else none;
}

abbrev let_in : Answer
let_in = record (plain 200 []) { authorization = some "Bearer "; cookie_header = some [] }

visit_runs : serve_http handler world visit ≡ ret let_in
unfolding serve_http serve_session maybe_refresh_session authorize get get_cookies_bytes unseal
    is_expired refresh_enabled resolve_url forwarded_url equal_url should_redirect remove_cookie
    pluck_claims
visit_runs = refl

serve_http-LetsThrough_example : LetsThrough handler world visit let_in
serve_http-LetsThrough_example = serve_http-LetsThrough handler world visit let_in visit_runs refl

-- A cookie holds the state with which the user went to the provider.
abbrev return_visit : Request
return_visit = record {
  header_get = λ name. "";
  cookies = [];
  get_cookie = λ name. if name == "mw-state" then some (zeros 6) else none;
}

abbrev welcomed : Answer
welcomed = redirect "http://h/page" (
    session_cookie store "s" (104 ∷ 1 ∷ 1 ∷ 1 ∷ 1 ∷ 1 ∷ 0 ∷ 0 ∷ [])
    ∷ record {
      name = "mw-state";
      value = [];
      path = "/";
      domain = "h";
      max_age = expired;
      http_only = false;
      same_site = default_mode;
      secure = false;
    }
    ∷ [])

return_visit_runs : handle_provider_callback handler world return_visit "/callback" ≡ ret welcomed
unfolding handle_provider_callback get_state_cookie exchange_code begin clear_state_cookie create
    seal split_value unseal
return_visit_runs = refl

handle_provider_callback-Begins_example : Begins handler world return_visit "/callback" welcomed
handle_provider_callback-Begins_example =
    handle_provider_callback-Begins handler world return_visit "/callback" welcomed
      return_visit_runs refl
