-- ===== src/Acp/OauthIntro/Tests.antt =====
-- A run of pkg/acp/oauthintro with an authorization server made for it.
use hub_agent_kubernetes.Prelude.{true, none, some, [], ◌∷◌, ◌==◌, string_eq, if◌then◌else◌}
use hub_agent_kubernetes.Expr
use hub_agent_kubernetes.Expr.{bool, str, field, end}
use hub_agent_kubernetes.Acp.Responses.{Response}
use hub_agent_kubernetes.Acp.Token.{Request, Urls}
use hub_agent_kubernetes.Acp.OauthIntro.{Handler, Server}

abbrev handler : Handler
handler = record {
  name = "mw";
  url = "https://auth.example/introspect";
  headers = ("X-Trace", λ req. some (req.header_get "X-Trace")) ∷ [];
  token_type_hint = "access_token";
  auth = record {
    kind = "Bearer";
    secret = record { name = "s"; namespace = "default" };
    key = "Authorization";
    value = "Bearer zzz";
  };
  token_src = record { header = "X-Token"; header_auth_scheme = ""; query = ""; cookie = "" };
  fwd_headers = ("User", "sub") ∷ [];
  validate_custom_claims = none;
}

abbrev server : Server
server = record {
  accepts_url = λ url. true;
  post = λ introspection. some (record {
    status = 200;
    body = some (field "active" (bool true) (field "sub" (str "ada") end));
  });
}

abbrev urls : Urls
urls = record { parse_query = λ url. none; query_unescape = λ text. some text }

abbrev request : Request
request = record {
  header_get = λ name. if name == "X-Token" then "opaque" else "";
  cookie_value = λ name. none;
  query_get = λ name. "";
}

abbrev passed : Response
passed = record { status = 200; headers = ("User", "ada") ∷ [] }
