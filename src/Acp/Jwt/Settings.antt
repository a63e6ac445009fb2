-- ===== src/Acp/Jwt/Settings.antt =====
-- pkg/acp/jwt/jwt.go: the configuration, and the handler that `NewHandler` makes of it.
use hub_agent_kubernetes.Prelude.{
  String, Bool, true, false, ◌&&◌, not, Option, none, some, List, [], ◌==◌, string_eq,
  if◌then◌else◌, GoMap,
}
use hub_agent_kubernetes.Strings.{runes, has_prefix}
use hub_agent_kubernetes.Expr.Predicates.{Predicate}
use hub_agent_kubernetes.Acp.Jwt.{PublicKey, Jwk}
use hub_agent_kubernetes.Acp.Jwt.KeySets.{
  FileState, new_file_key_set, RemoteKeySet, new_remote_key_set, KeySet, content, file, remote,
}

pub record Config : Type 0 where
  pub signing_secret : String
  pub signing_secret_base64_encoded : Bool
  pub public_key : String
  pub jwks_file : String
  pub jwks_url : String
  pub strip_authorization_header : Bool
  pub forward_headers : GoMap String String
  pub token_query_key : String
  pub claims : String

pub record Handler : Type 0 where
  pub name : String
  pub signing_secret : String
  pub pub_key : Option PublicKey
  pub tok_qry_key : String
  pub jwks_url : String
  pub key_set : Option KeySet
  pub dyn_key_sets : GoMap String RemoteKeySet
  pub strip_authorization : Bool
  pub fwd_headers : GoMap String String
  pub validate_custom_claims : Option Predicate

-- What `NewHandler` calls of other packages; `none` is an error: `base64.StdEncoding.DecodeString`,
-- `pem.Decode` with `x509.ParsePKIXPublicKey`, `json.Unmarshal` of a key set, and `expr.Parse`.
pub record Parsers : Type 0 where
  pub decode64 : String → Option String
  pub parse_public_key : String → Option PublicKey
  pub parse_keys : String → Option (List Jwk)
  pub parse_predicate : String → Option Predicate

-- `FileOrContent.IsPath`, on what `os.Stat` finds at each path.
abbrev pub is_path : (String → Option FileState) → String → Bool
is_path files f = elim (files f) [ none ↦ false | some _ ↦ true ]

-- `Config.keySet`; the outer `none` is an error, and the inner nil.
unfoldable pub key_set_of : Parsers → (String → Option FileState) → Config → Option (Option KeySet)
unfolding has_prefix
key_set_of parsers files cfg =
    if not (cfg.jwks_file == "")
    then if is_path files cfg.jwks_file
      then some (some (file (new_file_key_set cfg.jwks_file)))
      else elim (parsers.parse_keys cfg.jwks_file) [
        | none ↦ none
        | some keys ↦ some (some (content keys))
      ]
    else if not (cfg.jwks_url == "") && not (has_prefix (runes cfg.jwks_url) (runes "/"))
    then some (some (remote (new_remote_key_set cfg.jwks_url)))
    else some none

-- A text that is parsed unless it is empty; the outer `none` is an error.
abbrev pub parse_given : {A : Type 0} → (String → Option A) → String → Option (Option A)
parse_given parse text =
    if text == "" then some none else elim (parse text) [ none ↦ none | some a ↦ some (some a) ]

-- `NewHandler`; `none` is an error.
unfoldable pub new_handler :
    Parsers → (String → Option FileState) → Config → String → Option Handler
unfolding key_set_of
new_handler parsers files cfg pol_name =
    if cfg.public_key == "" && cfg.signing_secret == "" && cfg.jwks_file == "" && cfg.jwks_url == ""
    then none
    else elim (parse_given parsers.parse_predicate cfg.claims) [
      | none ↦ none
      | some pred ↦
          elim (if cfg.signing_secret_base64_encoded
            then parsers.decode64 cfg.signing_secret
            else some cfg.signing_secret) [
              | none ↦ none
              | some signing_secret ↦ elim (parse_given parsers.parse_public_key cfg.public_key) [
                | none ↦ none
                | some pub_key ↦ elim (key_set_of parsers files cfg) [
                  | none ↦ none
                  | some ks ↦ some (record {
                    name = pol_name;
                    signing_secret = signing_secret;
                    pub_key = pub_key;
                    tok_qry_key =
                        (if cfg.token_query_key == "" then "jwt" else cfg.token_query_key);
                    jwks_url = cfg.jwks_url;
                    key_set = ks;
                    dyn_key_sets = [];
                    strip_authorization = cfg.strip_authorization_header;
                    fwd_headers = cfg.forward_headers;
                    validate_custom_claims = pred;
                  })
                ]
              ]
            ]
    ]
