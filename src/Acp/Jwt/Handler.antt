-- ===== src/Acp/Jwt/Handler.antt =====
-- pkg/acp/jwt/jwt.go: the handler, its choice of the key, and `ServeHTTP`.
pub mod Held
pub mod Verified
pub mod Foreign
use hub_agent_kubernetes.Prelude.{
  ℕ, String, Bool, true, false, ◌&&◌, ◌||◌, not, Option, none, some, List, [], ◌∷◌, ◌++◌, ◌==◌,
  string_eq, ltb, take, if◌then◌else◌, GoMap, lookup, insert, default, map, Run, ret, panic, ◌>>=◌,
}
use hub_agent_kubernetes.Strings.{runes, string_of, byte_len, has_prefix, trim_prefix}
use hub_agent_kubernetes.Expr.{Value, str, Claims}
use hub_agent_kubernetes.Expr
use hub_agent_kubernetes.Expr.Predicates.{Predicate}
use hub_agent_kubernetes.Expr.Pluck.{ok, unsupported, pluck_claims}
use hub_agent_kubernetes.Acp.Responses.{Response, rejected, added, accepts}
use hub_agent_kubernetes.Acp.Token.{Request}
use hub_agent_kubernetes.Acp.Jwt.{PublicKey, Jwk, VerificationKey, secret, public}
use hub_agent_kubernetes.Acp.Jwt.KeySets.{
  key_of, Searched, failed, searched, FileState, KeysResponse, FileKeySet, new_file_key_set,
  file_key, RemoteKeySet, new_remote_key_set, remote_key, KeySet, content, file, remote,
}
use hub_agent_kubernetes.Acp.Jwt.Settings.{Handler}

-- What the code reads of `*jwt.Token`: the name of its method, the key ID of its header if that is a
-- text, and its claims.
pub record Token : Type 0 where
  pub alg : String
  pub kid : Option String
  pub claims : Claims

-- The package golang-jwt: `decode` reads a token without verifying it, and `verifies` is whether
-- its signature by a key and its times are valid.
pub record JwtPackage : Type 0 where
  pub decode : String → Option Token
  pub verifies : String → VerificationKey → Bool

-- The clock, the files, the servers, and the URL that a reference leads to from a base, by
-- `net/url`.
pub record World : Type 0 where
  pub now : ℕ
  pub files : String → Option FileState
  pub server : String → Option KeysResponse
  pub resolve : String → String → Option String

-- `remoteKeySet`: the URL whose key set is searched, and the handler with a key set for it; `none`
-- is an error.
unfoldable pub remote_key_set : World → Handler → String → Option (String × RemoteKeySet)
remote_key_set w h iss = elim (w.resolve iss h.jwks_url) [
  | none ↦ none
  | some ks_url ↦ some (ks_url, default (new_remote_key_set ks_url) (lookup ks_url h.dyn_key_sets))
]

abbrev pub found_key : Searched → Option VerificationKey
found_key failed = none
found_key (searched none) = none
found_key (searched (some k)) = some (public k)

-- The search in a key set that the configuration gives, and the key set after it.
unfoldable pub search_key_set : World → KeySet → String → KeySet × Run Searched
unfolding key_of file_key remote_key
search_key_set w (content keys) kid = (content keys, ret (searched (key_of kid keys)))
search_key_set w (file k) kid =
    let (k', answer) = file_key (w.files k.path) w.now kid k in (file k', answer)
search_key_set w (remote s) kid =
    let (s', answer) = remote_key w.server w.now kid s in (remote s', ret answer)

-- The search in the key set of the issuer that the token names.
unfoldable pub search_issuer : World → Handler → String → String → Handler × Option VerificationKey
unfolding remote_key_set remote_key
search_issuer w h iss kid = elim (remote_key_set w h iss) [
  | none ↦ (h, none)
  | some (ks_url, rks) ↦
      let (rks', answer) = remote_key w.server w.now kid rks in
      (record h { dyn_key_sets = insert ks_url rks' h.dyn_key_sets }, found_key answer)
]

-- `c["iss"].(string)`
abbrev pub text_claim : Option Value → Option String
text_claim (some (str s)) = some s
text_claim claim = none

-- `resolveKey`: the handler after it, and the key; `none` is an error.
unfoldable pub resolve_key :
    World → Handler → Token → String → Handler × Run (Option VerificationKey)
unfolding search_key_set search_issuer Expr.get
resolve_key w h tok kid = elim h.key_set [
  | some ks ↦
      let (ks', answer) = search_key_set w ks kid in
      (record h { key_set = some ks' }, answer >>= λ found. ret (found_key found))
  | none ↦ elim (text_claim (Expr.get "iss" tok.claims)) [
    | none ↦ (h, ret none)
    | some iss ↦ let (h', key) = search_issuer w h iss kid in (h', ret key)
  ]
]

-- The first two bytes of the method's name, which is ASCII.
abbrev pub method_of : String → String
method_of alg = if ltb 2 (byte_len (runes alg)) then string_of (take 2 (runes alg)) else ""

-- `keyFunc`
unfoldable pub key_func : World → Handler → Token → Handler × Run (Option VerificationKey)
unfolding resolve_key
key_func w h tok =
    let prefix = method_of tok.alg in
    let kid = default "" tok.kid in
    if prefix == "RS" || prefix == "ES"
    then if not (kid == "")
      then resolve_key w h tok kid
      else (h, ret (elim h.pub_key [ none ↦ none | some k ↦ some (public k) ]))
    else if prefix == "HS"
    then (h, ret (if h.signing_secret == "" then none else some (secret h.signing_secret)))
    else (h, ret none)

-- `ExtractToken`; "" is an error.
unfoldable pub extract_token : Handler → Request → String
unfolding trim_prefix
extract_token h req =
    let raw = string_of (trim_prefix (runes (req.header_get "Authorization")) (runes "Bearer ")) in
    if raw == "" then req.query_get h.tok_qry_key else raw

-- `ParseFromRequest` with the handler's extractor and key function; `none` is an error.
unfoldable pub parse_from_request :
    JwtPackage → World → Handler → Request → Handler × Run (Option Token)
unfolding extract_token key_func
parse_from_request lib w h req =
    let raw = extract_token h req in
    if raw == "" then (h, ret none) else elim (lib.decode raw) [
      | none ↦ (h, ret none)
      | some tok ↦
          let (h', looked) = key_func w h tok in
          (
            h',
            looked >>= λ key. elim key [
              | none ↦ ret none
              | some k ↦ ret (if lib.verifies raw k then some tok else none)
            ],
          )
    ]

-- The part of `ServeHTTP` after the token is parsed.
unfoldable pub answer : Handler → Option Token → Run Response
unfolding pluck_claims
answer h none = ret (rejected 401)
answer h (some tok) = accepts h.validate_custom_claims tok.claims >>= λ accepted.
    if not accepted
    then ret (rejected 403)
    else pluck_claims h.fwd_headers tok.claims >>= λ plucked. elim plucked [
      | unsupported ↦ ret (rejected 500)
      | ok hdrs ↦ ret (record {
        status = 200;
        headers = added hdrs ++ (if h.strip_authorization then ("Authorization", "") ∷ [] else []);
      })
    ]

-- `ServeHTTP`: the handler after it, and the response.
unfoldable pub serve_http : JwtPackage → World → Handler → Request → Handler × Run Response
unfolding parse_from_request answer
serve_http lib w h req =
    let (h', parsed) = parse_from_request lib w h req in (h', parsed >>= answer h)
