-- ===== src/Acp/Jwt/Handler/Foreign.antt =====
-- The key of a token, where pkg/acp/jwt/jwt.go has no key set of its own.
use hub_agent_kubernetes.Prelude.{
  ℕ, ◌<◌, String, Bool, true, Option, none, some, List, [], ◌∷◌, ◌++◌, ◌&&◌, ◌≡◌, ◌≢◌, refl, ap,
  ◌∙◌, ◌==◌, string_eq, ==_ne, if◌then◌else◌, default, GoMap, lookup, arith, ret, Bool-cases,
  Option-cases, inl, inr, lt→ltb, str_iff,
}
use hub_agent_kubernetes.Expr
use hub_agent_kubernetes.Expr.Pluck.{ok, pluck_claims}
use hub_agent_kubernetes.Acp.Responses.{Response, added, accepts}
use hub_agent_kubernetes.Acp.Token.{Request}
use hub_agent_kubernetes.Acp.Jwt.{PublicKey, Jwk, VerificationKey, public}
use hub_agent_kubernetes.Acp.Jwt.KeySets.{
  key_of, searched, KeysResponse, FileState, later, fetch_keys, update_remote_key_set, RemoteKeySet,
  new_remote_key_set, remote_key,
}
use hub_agent_kubernetes.Acp.Jwt.Settings.{
  Config, Parsers, key_set_of, parse_given, new_handler, Handler,
}
use hub_agent_kubernetes.Acp.Jwt.Handler.{
  remote_key_set, text_claim, Token, JwtPackage, World, found_key, search_issuer, resolve_key,
  key_func, extract_token, parse_from_request, answer, serve_http,
}
use hub_agent_kubernetes.Acp.Jwt.Handler.Verified.{IsAsymmetric}

abbrev no_source : Config → Bool
no_source cfg =
    cfg.public_key == "" && cfg.signing_secret == "" && cfg.jwks_file == "" && cfg.jwks_url == ""

abbrev signing_secret_of : Parsers → Config → Option String
signing_secret_of parsers cfg =
    if cfg.signing_secret_base64_encoded
    then parsers.decode64 cfg.signing_secret
    else some cfg.signing_secret

-- What `NewHandler` keeps of a configuration.
record Keeps (parsers : Parsers) (files : String → Option FileState) (cfg : Config) (h : Handler)
    : Type 0 where
  set : key_set_of parsers files cfg ≡ some h.key_set
  url : h.jwks_url ≡ cfg.jwks_url
  no_sets : h.dyn_key_sets ≡ []

new_handler-Keeps :
    (parsers : Parsers) (files : String → Option FileState) (cfg : Config) (name : String)
    (h : Handler)
    → new_handler parsers files cfg name ≡ some h
    → Keeps parsers files cfg h
unfolding new_handler
new_handler-Keeps parsers files cfg name h e = elim (Bool-cases (no_source cfg)) [
  | inl none_given ↦ absurd (cc (rw (none_given, new_handler) at e))
  | inr given ↦ elim (Option-cases (parse_given parsers.parse_predicate cfg.claims)) [
    | inl bad ↦ absurd (cc (rw (given, bad, new_handler) at e))
    | inr (pred, p) ↦ elim (Option-cases (signing_secret_of parsers cfg)) [
      | inl bad ↦ absurd (cc (rw (given, p, bad, new_handler) at e))
      | inr (signing_secret, s) ↦
          elim (Option-cases (parse_given parsers.parse_public_key cfg.public_key)) [
            | inl bad ↦ absurd (cc (rw (given, p, s, bad, new_handler) at e))
            | inr (pub_key, k) ↦ elim (Option-cases (key_set_of parsers files cfg)) [
              | inl bad ↦ absurd (cc (rw (given, p, s, k, bad, new_handler) at e))
              | inr (ks, set) ↦
                  let last = rw (given, p, s, k, set, new_handler) at e in
                  record { set = set ∙ cc last; url = cc last; no_sets = cc last }
            ]
          ]
    ]
  ]
]

-- The issuer of the token leads to the URL of a server, which answers with a key for its key ID.
pub record NamesServer (w : World) (tok : Token) (k : PublicKey) : Type 0 where
  pub iss : String
  pub url : String
  pub resp : KeysResponse
  pub keys : List Jwk
  pub named : text_claim (Expr.get "iss" tok.claims) ≡ some iss
  pub leads : w.resolve iss "" ≡ some url
  pub answers : w.server url ≡ some resp
  pub succeeds : resp.status ≡ 200
  pub decoded : resp.body ≡ some keys
  pub has_key : key_of (default "" tok.kid) keys ≡ some k
  pub started : 0 < w.now

fetch_keys-some :
    (resp : KeysResponse) (now : ℕ) (keys : List Jwk)
    → resp.status ≡ 200
    → resp.body ≡ some keys
    → (e : ℕ) × (fetch_keys (some resp) now ≡ some (keys, e))
unfolding fetch_keys
fetch_keys-some resp now keys good decoded =
    (later now resp.cachable_until, rw (good, fetch_keys, decoded))

update-NamesServer :
    (w : World) (tok : Token) (k : PublicKey) (n : NamesServer w tok k)
    → (s : RemoteKeySet) × (update_remote_key_set w.server w.now (new_remote_key_set n.url)
        ≡ some s)
      × (s.keys ≡ n.keys)
unfolding update_remote_key_set
update-NamesServer w tok k n =
    let (e, f) = fetch_keys-some n.resp w.now n.keys n.succeeds n.decoded in
    (
      record { url = n.url; keys = n.keys; expiry = e },
      rw (lt→ltb 0 w.now n.started, update_remote_key_set)
          (rw (n.answers, f, update_remote_key_set)),
      refl,
    )

remote_key-NamesServer :
    (w : World) (tok : Token) (k : PublicKey) (n : NamesServer w tok k)
    → (remote_key w.server w.now (default "" tok.kid) (new_remote_key_set n.url)).1
      ≡ searched (some k)
unfolding remote_key
remote_key-NamesServer w tok k n =
    let (s, e, same) = update-NamesServer w tok k n in
    rw (e, remote_key) (ap searched (rw same n.has_key))

search_issuer-NamesServer :
    (w : World) (h : Handler) (tok : Token) (k : PublicKey) (n : NamesServer w tok k)
    → h.jwks_url ≡ ""
    → h.dyn_key_sets ≡ []
    → (search_issuer w h n.iss (default "" tok.kid)).1 ≡ some (public k)
unfolding search_issuer remote_key_set lookup
search_issuer-NamesServer w h tok k n blank new =
    let leads : w.resolve n.iss h.jwks_url ≡ some n.url = ap (w.resolve n.iss) blank ∙ n.leads in
    let absent : lookup n.url h.dyn_key_sets ≡ none = rw new refl in
    rw (leads, search_issuer) (rw absent (ap found_key (remote_key-NamesServer w tok k n)))

resolve_key-NamesServer :
    (w : World) (h : Handler) (tok : Token) (k : PublicKey)
    → NamesServer w tok k
    → h.key_set ≡ none
    → h.jwks_url ≡ ""
    → h.dyn_key_sets ≡ []
    → (resolve_key w h tok (default "" tok.kid)).1 ≡ ret (some (public k))
unfolding resolve_key
resolve_key-NamesServer w h tok k n unset blank new =
    rw (unset, resolve_key)
      (rw (n.named, resolve_key)
        (ap (λ (o : Option VerificationKey). ret o)
          (search_issuer-NamesServer w h tok k n blank new)))

key_set_of-none :
    (parsers : Parsers) (files : String → Option FileState) (cfg : Config)
    → cfg.jwks_file ≡ ""
    → cfg.jwks_url ≡ ""
    → key_set_of parsers files cfg ≡ some none
unfolding key_set_of
key_set_of-none parsers files cfg no_file no_url =
    ground (arith, str_iff cfg.jwks_file "", str_iff cfg.jwks_url "")

key_func-asymmetric :
    (w : World) (h : Handler) (tok : Token) (key : VerificationKey)
    → IsAsymmetric tok
    → default "" tok.kid ≢ ""
    → (resolve_key w h tok (default "" tok.kid)).1 ≡ ret (some key)
    → (key_func w h tok).1 ≡ ret (some key)
unfolding key_func
key_func-asymmetric w h tok key (inl rs) kid e =
    rw (rs, ==_ne (default "" tok.kid) "" kid, key_func) e
key_func-asymmetric w h tok key (inr es) kid e =
    rw (es, ==_ne (default "" tok.kid) "" kid, key_func) e

-- A handler of a configuration without a JWKS file or URL, with a public key or a signing secret
-- only, lets through each request whose token names, by its issuer, a server that gives a key for
-- the token's key ID, where this key verifies the token, the method is of RSA or ECDSA, and the
-- predicate and the headers, if any, take the claims: whoever runs the server makes the tokens.
pub serve_http-foreign :
    (parsers : Parsers) (cfg : Config) (name : String) (lib : JwtPackage) (w : World) (h : Handler)
    (req : Request) (tok : Token) (k : PublicKey) (hdrs : GoMap String (List String))
    → cfg.jwks_file ≡ ""
    → cfg.jwks_url ≡ ""
    → new_handler parsers w.files cfg name ≡ some h
    → extract_token h req ≢ ""
    → lib.decode (extract_token h req) ≡ some tok
    → IsAsymmetric tok
    → default "" tok.kid ≢ ""
    → NamesServer w tok k
    → lib.verifies (extract_token h req) (public k) ≡ true
    → accepts h.validate_custom_claims tok.claims ≡ ret true
    → pluck_claims h.fwd_headers tok.claims ≡ ret (ok hdrs)
    → (a : Response) × ((serve_http lib w h req).1 ≡ ret a) × (a.status ≡ 200)
unfolding serve_http answer parse_from_request
serve_http-foreign parsers cfg name lib w h req tok k hdrs no_file no_url built set decoded asym kid
      n verified accepted plucked =
    let kept = new_handler-Keeps parsers w.files cfg name h built in
    let unset = key_set_of-none parsers w.files cfg no_file no_url in
    let no_set : h.key_set ≡ none = cc (kept.set, unset) in
    let key =
      key_func-asymmetric w h tok (public k) asym kid
        (resolve_key-NamesServer w h tok k n no_set (kept.url ∙ no_url) kept.no_sets) in
    (
      record {
        status = 200;
        headers = added hdrs ++ (if h.strip_authorization then ("Authorization", "") ∷ [] else []);
      },
      rw (==_ne (extract_token h req) "" set, parse_from_request)
          (rw (decoded, key, verified, parse_from_request) (rw (accepted, plucked, answer))),
      refl,
    )
