-- ===== src/Acp/Jwt/Tests.antt =====
-- Runs of pkg/acp/jwt with servers, files and tokens made for it.
use hub_agent_kubernetes.Prelude.{
  ℕ, String, false, Option, none, some, List, [], ◌∷◌, ◌≡◌, ◌⊎◌, refl, inl, ◌==◌, string_eq, nat_eq,
  ◌&&◌, str_iff, if◌then◌else◌, arith, ret, ltb,
}
use hub_agent_kubernetes.Strings.{trim_prefix}
use hub_agent_kubernetes.Expr
use hub_agent_kubernetes.Expr.{Claims, str, field, end}
use hub_agent_kubernetes.Expr.Pluck.{pluck_claims}
use hub_agent_kubernetes.Acp.Responses.{Response}
use hub_agent_kubernetes.Acp.Token.{Request}
use hub_agent_kubernetes.Acp.Jwt.{Jwk, secret, public}
use hub_agent_kubernetes.Acp.Jwt.KeySets.{
  key_of, failed, new_file_key_set, FileKeySet, FileState, file_key,
}
use hub_agent_kubernetes.Acp.Jwt.KeySets.Fresh.{
  IsStamped, fresh, call, IsRecent, IsBroken, file_key-IsRecent,
}
use hub_agent_kubernetes.Acp.Jwt.Settings.{Config, Handler, Parsers, new_handler}
use hub_agent_kubernetes.Acp.Jwt.Handler.{
  Token, JwtPackage, World, extract_token, key_func, parse_from_request, answer, serve_http,
}
use hub_agent_kubernetes.Acp.Jwt.Handler.Verified.{IsVerified, serve_http-IsVerified}
use hub_agent_kubernetes.Acp.Jwt.Handler.Foreign.{serve_http-foreign}

abbrev old_keys : List Jwk
old_keys = record { key_id = "a"; key = 1 } ∷ []

abbrev new_keys : List Jwk
new_keys = record { key_id = "a"; key = 2 } ∷ []

-- The file changes at the instant 8000000000.
abbrev before_change : FileState
before_change = record { mod_time = 7; content = some old_keys }

abbrev after_change : FileState
after_change = record { mod_time = 8000000000; content = some new_keys }

abbrev files : ℕ → Option FileState
files t = some (if ltb t 8000000000 then before_change else after_change)

files-IsStamped : IsStamped files
files-IsStamped = record {
  nonzero = λ t f e p. ground arith;
  tells = λ t u f g e e' p. ground arith;
}

abbrev first : FileKeySet
first = new_file_key_set "keys.json"

file_key-IsRecent_example :
    (((file_key
          (files 9000000000)
          9000000000
          "a"
          (file_key (files 6000000000) 6000000000 "a" first).0).1
        ≡ ret failed)
      × IsBroken (files 9000000000))
    ⊎ IsRecent files 9000000000 "a"
        (file_key
          (files 9000000000)
          9000000000
          "a"
          (file_key (files 6000000000) 6000000000 "a" first).0).1
file_key-IsRecent_example =
    file_key-IsRecent files 6000000000 9000000000
      (file_key (files 6000000000) 6000000000 "a" first).0 "a" files-IsStamped
      (call "a" (fresh "keys.json" 6000000000 (omega arith)) (omega arith)) (omega arith)

-- A configuration with a signing secret alone.
abbrev config : Config
config = record {
  signing_secret = "xxx";
  signing_secret_base64_encoded = false;
  public_key = "";
  jwks_file = "";
  jwks_url = "";
  strip_authorization_header = false;
  forward_headers = [];
  token_query_key = "";
  claims = "";
}

abbrev parsers : Parsers
parsers = record {
  decode64 = λ s. none;
  parse_public_key = λ s. none;
  parse_keys = λ s. none;
  parse_predicate = λ s. none;
}

abbrev handler : Handler
handler = record {
  name = "mw";
  signing_secret = "xxx";
  pub_key = none;
  tok_qry_key = "jwt";
  jwks_url = "";
  key_set = none;
  dyn_key_sets = [];
  strip_authorization = false;
  fwd_headers = [];
  validate_custom_claims = none;
}

built : new_handler parsers (λ path. none) config "mw" ≡ some handler
unfolding new_handler
built = refl

abbrev their_token : Token
their_token = record {
  alg = "RS256";
  kid = some "a";
  claims = field "iss" (str "https://other.example/keys") end;
}

abbrev our_token : Token
our_token = record { alg = "HS256"; kid = none; claims = end }

-- Their token is signed with the key 1, and ours with the secret.
abbrev lib : JwtPackage
lib = record {
  decode = λ raw.
      if raw == "theirs" then some their_token else if raw == "ours" then some our_token else none;
  verifies = λ raw key. elim key [
    | secret s ↦ raw == "ours" && s == "xxx"
    | public k ↦ raw == "theirs" && k == 1
  ];
}

abbrev world : World
world = record {
  now = 9;
  files = λ path. none;
  server = λ url.
      if url == "https://other.example/keys"
      then some (record { status = 200; body = some old_keys; cachable_until = none })
      else none;
  resolve = λ base reference. some base;
}

abbrev request : String → Request
request token = record {
  header_get = λ name. if name == "Authorization" then token else "";
  cookie_value = λ name. none;
  query_get = λ name. "";
}

abbrev passed : Response
passed = record { status = 200; headers = [] }

ours_runs : (serve_http lib world handler (request "Bearer ours")).1 ≡ ret passed
unfolding serve_http parse_from_request extract_token key_func answer trim_prefix
ours_runs = refl

serve_http-IsVerified_example : IsVerified lib world handler (request "Bearer ours") passed
serve_http-IsVerified_example =
    serve_http-IsVerified lib world handler (request "Bearer ours") passed ours_runs refl

theirs_extracted : extract_token handler (request "Bearer theirs") ≡ "theirs"
unfolding extract_token trim_prefix
theirs_extracted = refl

serve_http-foreign_example :
    (a : Response) × ((serve_http lib world handler (request "Bearer theirs")).1 ≡ ret a)
    × (a.status ≡ 200)
serve_http-foreign_example =
    serve_http-foreign parsers config "mw" lib world handler (request "Bearer theirs") their_token 1
      [] refl refl built (rw theirs_extracted (λ e. cc ((str_iff "theirs" "").1 e)))
      (rw theirs_extracted refl) (inl refl) (λ e. cc ((str_iff "a" "").1 e))
      (record {
        iss = "https://other.example/keys";
        url = "https://other.example/keys";
        resp = record { status = 200; body = some old_keys; cachable_until = none };
        keys = old_keys;
        named = unfold Expr.get in refl;
        leads = refl;
        answers = refl;
        succeeds = refl;
        decoded = refl;
        has_key = unfold key_of in refl;
        started = omega arith;
      })
      (rw theirs_extracted refl) refl (unfold pluck_claims in refl)
