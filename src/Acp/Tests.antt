-- ===== src/Acp/Tests.antt =====
-- An input for each theorem on the access control policies that has hypotheses.
use hub_agent_kubernetes.Prelude.{
  true, Bool, String, none, some, [], ◌∷◌, ◌≡◌, ◌≢◌, ◌↔◌, refl, lookup, insert, string_eq,
  if◌then◌else◌, ◌==◌,
}
use hub_agent_kubernetes.Acp.Token.{Source, Request, Urls, get_token_from_header, extract}
use hub_agent_kubernetes.Acp.ApiKey.{Key, Config, Handler, new_handler, serve_http}
use hub_agent_kubernetes.Acp.ApiKey.Keys.{Known, new_handler-Known}
use hub_agent_kubernetes.Acp.ApiKey.Serving.{Authorized, serve_http-Authorized}
use hub_agent_kubernetes.Acp.BasicAuth
use hub_agent_kubernetes.Acp.BasicAuth.Users.{is_let_through, last_hash, serve_http-last_hash}

abbrev request : Request
request = record {
  header_get = λ name. if name == "Authorization" then "Bearer k1" else "";
  cookie_value = λ name. none;
  query_get = λ name. "";
}

abbrev urls : Urls
urls = record { parse_query = λ uri. none; query_unescape = λ s. some s }

abbrev bearer : Source
bearer = record { header = "Authorization"; header_auth_scheme = "Bearer"; query = ""; cookie = "" }

abbrev ann : Key
ann = record { id = "1"; metadata = ("name", "ann") ∷ []; value = "k1" }

abbrev config : Config
config = record { key_source = bearer; keys = ann ∷ []; forward_headers = ("X-Name", "name") ∷ [] }

abbrev handler : Handler
handler = record {
  name = "acp";
  key_src = bearer;
  keys = ("k1", record ann { metadata = ("name", "ann") ∷ ("_id", "1") ∷ [] }) ∷ [];
  fwd_headers = ("X-Name", "name") ∷ [];
}

built : new_handler config "acp" ≡ some handler
unfolding new_handler insert
built = refl

token_of_request : get_token_from_header request "Authorization" "Bearer" ≡ "k1"
unfolding get_token_from_header
token_of_request = refl

extracted : extract urls request bearer ≡ some "k1"
unfolding extract
extracted = refl

abbrev k1 : String
k1 = "k1"

new_handler-Known_example : Known (ann ∷ []) "k1" (lookup "k1" handler.keys)
new_handler-Known_example = new_handler-Known config "acp" handler "k1" built

serve_http-Authorized_example :
    ((serve_http urls (λ s. s) handler request).status ≡ 200)
    ↔ Authorized urls (λ s. s) config handler request
serve_http-Authorized_example =
    serve_http-Authorized urls (λ s. s) config "acp" handler request built

abbrev user_config : BasicAuth.Config
user_config = record {
  users = "ann:h1" ∷ "ann:h2" ∷ [];
  realm = "";
  strip_authorization_header = true;
  forward_username_header = "X-User";
}

abbrev user_handler : BasicAuth.Handler
user_handler = record {
  realm = "hub";
  users = ("ann", "h2") ∷ [];
  forward_username = "X-User";
  strip_authorization = true;
  name = "acp";
}

abbrev same_text : String → String → Bool
same_text password hash = password == hash

users_built : BasicAuth.new_handler user_config "acp" ≡ some user_handler
unfolding BasicAuth.new_handler insert
users_built = refl

serve_http-last_hash_example :
    (is_let_through (BasicAuth.serve_http same_text user_handler (some ("ann", "h2"))) ≡ true) ↔ (
      (last_hash "ann" user_config.users "" ≢ "")
      × (same_text "h2" (last_hash "ann" user_config.users "") ≡ true))
serve_http-last_hash_example =
    serve_http-last_hash same_text user_config "acp" user_handler "ann" "h2" users_built
