-- ===== src/Acp/Jwt/Handler/Verified.antt =====
-- Which requests `ServeHTTP` of pkg/acp/jwt/jwt.go lets through, and the key that counts.
use hub_agent_kubernetes.Prelude.{
  String, true, false, Option, none, some, List, [], ◌∷◌, ◌++◌, ◌||◌, ◌≡◌, ◌≢◌, ap, ◌∙◌, ◌==◌, ◌⊎◌,
  string_eq, eq_of_==, ne_of_==, if◌then◌else◌, default, GoMap, arith, Run, ret, panic, >>=-eq-ret,
  Run-cases, Bool-cases, Option-cases, inl, inr,
}
use hub_agent_kubernetes.Expr.Pluck.{ok, unsupported, pluck_claims}
use hub_agent_kubernetes.Expr
use hub_agent_kubernetes.Acp.Responses.{Response, added, accepts}
use hub_agent_kubernetes.Acp.Token.{Request}
use hub_agent_kubernetes.Acp.Jwt.{PublicKey, VerificationKey, secret, public}
use hub_agent_kubernetes.Acp.Jwt.KeySets.{remote_key, Searched, failed, searched}
use hub_agent_kubernetes.Acp.Jwt.Settings.{Handler}
use hub_agent_kubernetes.Acp.Jwt.Handler.Held.{IsHeld, resolve_key-IsHeld}
use hub_agent_kubernetes.Acp.Jwt.Handler.{
  Token, remote_key_set, JwtPackage, World, found_key, search_key_set, search_issuer, text_claim,
  resolve_key, method_of, key_func, extract_token, parse_from_request, answer, serve_http,
}

abbrev pub IsAsymmetric : Token → Type 0
IsAsymmetric tok = (method_of tok.alg ≡ "RS") ⊎ (method_of tok.alg ≡ "ES")

-- The key that a token has to be signed with: the signing secret for the methods of HMAC, and for
-- those of RSA and ECDSA the public key, or one under its key ID in the key set that the handler has
-- for the token.
pub data KeyFor (w : World) (h : Handler) (tok : Token) : VerificationKey → Type 0 where
  signing :
      method_of tok.alg ≡ "HS" → h.signing_secret ≢ "" → KeyFor w h tok (secret h.signing_secret)
  configured :
      (k : PublicKey)
      → IsAsymmetric tok
      → default "" tok.kid ≡ ""
      → h.pub_key ≡ some k
      → KeyFor w h tok (public k)
  in_set :
      (k : PublicKey)
      → IsAsymmetric tok
      → default "" tok.kid ≢ ""
      → IsHeld w h tok (default "" tok.kid) k
      → KeyFor w h tok (public k)

found_key-public :
    (s : Searched) (key : VerificationKey)
    → found_key s ≡ some key
    → (k : PublicKey) × (key ≡ public k)
found_key-public failed key e = absurd (cc e)
found_key-public (searched none) key e = absurd (cc e)
found_key-public (searched (some k)) key e = (k, cc e)

search_issuer-public :
    (w : World) (h : Handler) (iss kid : String) (key : VerificationKey)
    → (search_issuer w h iss kid).1 ≡ some key
    → (k : PublicKey) × (key ≡ public k)
unfolding search_issuer
search_issuer-public w h iss kid key e = elim (Option-cases (remote_key_set w h iss)) [
  | inl bad ↦ absurd (cc (rw (bad, search_issuer) at e))
  | inr ((ks_url, rks), found) ↦
      found_key-public (remote_key w.server w.now kid rks).1 key (rw (found, search_issuer) at e)
]

-- The key was found in a key set.
resolve_key-public :
    (w : World) (h : Handler) (tok : Token) (kid : String) (key : VerificationKey)
    → (resolve_key w h tok kid).1 ≡ ret (some key)
    → (k : PublicKey) × (key ≡ public k)
unfolding resolve_key
resolve_key-public w h tok kid key e = elim (Option-cases h.key_set) [
  | inr (ks, given) ↦
      let (found, s, f) =
        >>=-eq-ret (search_key_set w ks kid).1 (λ (found : Searched). ret (found_key found))
          (rw (given, resolve_key) at e) in
      found_key-public found key (cc f)
  | inl unset ↦ elim (Option-cases (text_claim (Expr.get "iss" tok.claims))) [
    | inl bad ↦ absurd (cc (rw (unset, bad, resolve_key) at e))
    | inr (iss, named) ↦
        search_issuer-public w h iss kid key (cc (rw (unset, named, resolve_key) at e))
  ]
]

abbrev value_of : Run (Option Token) → Option Token
value_of panic = none
value_of (ret o) = o

key_func-KeyFor :
    (w : World) (h : Handler) (tok : Token) (key : VerificationKey)
    → (key_func w h tok).1 ≡ ret (some key)
    → KeyFor w h tok key
unfolding key_func
key_func-KeyFor w h tok key e =
    elim (Bool-cases (method_of tok.alg == "RS" || method_of tok.alg == "ES")) [
      | inl asym ↦ elim (Bool-cases (default "" tok.kid == "")) [
        | inl blank ↦ elim (Option-cases h.pub_key) [
          | inl unset ↦ absurd (cc (rw (asym, blank, unset, key_func) at e))
          | inr (k, has) ↦
              let p : public k ≡ key = cc (rw (asym, blank, has, key_func) at e) in
              rw (← p) (configured k (asymmetric asym) (eq_of_== (default "" tok.kid) "" blank) has)
        ]
        | inr kid ↦
            let last = rw (asym, kid, key_func) at e in
            let (k, p) = resolve_key-public w h tok (default "" tok.kid) key last in
            let held = resolve_key-IsHeld w h tok (default "" tok.kid) k (rw p at last) in
            rw p (in_set k (asymmetric asym) (ne_of_== (default "" tok.kid) "" kid) held)
      ]
      | inr symm ↦ elim (Bool-cases (method_of tok.alg == "HS")) [
        | inl hs ↦ elim (Bool-cases (h.signing_secret == "")) [
          | inl unset ↦ absurd (cc (rw (symm, hs, unset, key_func) at e))
          | inr set ↦
              let p : secret h.signing_secret ≡ key = cc (rw (symm, hs, set, key_func) at e) in
              rw (← p)
                (signing (eq_of_== (method_of tok.alg) "HS" hs) (ne_of_== h.signing_secret "" set))
        ]
        | inr other ↦ absurd (cc (rw (symm, other, key_func) at e))
      ]
    ]
  where
    asymmetric : (method_of tok.alg == "RS" || method_of tok.alg == "ES") ≡ true → IsAsymmetric tok
    asymmetric h' = elim (Bool-cases (method_of tok.alg == "RS")) [
      | inl rs ↦ inl (eq_of_== (method_of tok.alg) "RS" rs)
      | inr other ↦ inr (eq_of_== (method_of tok.alg) "ES" (rw other at h'))
    ]

-- The request carries a token that a key of its kind verifies, whose claims are accepted, and the
-- answer has the headers plucked of them.
pub record IsVerified (lib : JwtPackage) (w : World) (h : Handler) (req : Request) (a : Response)
    : Type 0 where
  pub tok : Token
  pub key : VerificationKey
  pub hdrs : GoMap String (List String)
  pub has_token : extract_token h req ≢ ""
  pub decoded : lib.decode (extract_token h req) ≡ some tok
  pub key_for : KeyFor w h tok key
  pub verified : lib.verifies (extract_token h req) key ≡ true
  pub accepted : accepts h.validate_custom_claims tok.claims ≡ ret true
  pub plucked : pluck_claims h.fwd_headers tok.claims ≡ ret (ok hdrs)
  pub answered :
      a.headers ≡ added hdrs ++ (if h.strip_authorization then ("Authorization", "") ∷ [] else [])

abbrev Parsed : JwtPackage → World → Handler → Request → Token → Type 0
Parsed lib w h req tok =
    (key : VerificationKey) × (extract_token h req ≢ "")
    × (lib.decode (extract_token h req) ≡ some tok)
    × KeyFor w h tok key
    × (lib.verifies (extract_token h req) key ≡ true)

abbrev checked : JwtPackage → String → Token → Option VerificationKey → Run (Option Token)
checked lib raw tok none = ret none
checked lib raw tok (some k) = ret (if lib.verifies raw k then some tok else none)

parse_from_request-Parsed :
    (lib : JwtPackage) (w : World) (h : Handler) (req : Request) (tok : Token)
    → (parse_from_request lib w h req).1 ≡ ret (some tok)
    → Parsed lib w h req tok
unfolding parse_from_request
parse_from_request-Parsed lib w h req tok e =
    let raw = extract_token h req in
    elim (Bool-cases (raw == "")) [
      | inl unset ↦ absurd (cc (rw (unset, parse_from_request) at e))
      | inr set ↦ elim (Option-cases (lib.decode raw)) [
        | inl bad ↦ absurd (cc (rw (set, bad, parse_from_request) at e))
        | inr (tok', decoded) ↦ elim (Run-cases (key_func w h tok').1) [
          | inl p ↦ absurd (cc (rw (set, decoded, p, parse_from_request) at e))
          | inr (none, k) ↦ absurd (cc (rw (set, decoded, k, parse_from_request) at e))
          | inr (some key, k) ↦ elim (Bool-cases (lib.verifies raw key)) [
            | inr bad ↦ absurd (cc (rw (set, decoded, k, bad, parse_from_request) at e))
            | inl good ↦
                let same : tok' ≡ tok =
                  ap (λ (r : Run (Option Token)). default tok' (value_of r))
                    (rw (set, decoded, k, good, parse_from_request) at e) in
                (
                  key,
                  ne_of_== raw "" set,
                  decoded ∙ ap some same,
                  rw same at (key_func-KeyFor w h tok' key k),
                  good,
                )
          ]
        ]
      ]
    ]

-- A request is let through, with status 200, only if it carries a token that decodes and is verified
-- by the key for its method: the signing secret, not empty, for HS, and a public key, the configured
-- one or one under its key ID in the key set of the configuration, or else of the token's issuer,
-- for RS and ES; if the predicate accepts its claims; and
-- with the headers that are plucked of these.
pub serve_http-IsVerified :
    (lib : JwtPackage) (w : World) (h : Handler) (req : Request) (a : Response)
    → (serve_http lib w h req).1 ≡ ret a
    → a.status ≡ 200
    → IsVerified lib w h req a
unfolding serve_http answer
serve_http-IsVerified lib w h req a e good =
    let (parsed, p, f) = >>=-eq-ret (parse_from_request lib w h req).1 (answer h) e in
    answered parsed p f
  where
    answered :
        (parsed : Option Token)
        → (parse_from_request lib w h req).1 ≡ ret parsed
        → answer h parsed ≡ ret a
        → IsVerified lib w h req a
    answered none p f = absurd (ground arith)
    answered (some tok) p f =
        let (key, set, decoded, key_for, verified) = parse_from_request-Parsed lib w h req tok p in
        elim (Run-cases (accepts h.validate_custom_claims tok.claims)) [
          | inl bad ↦ absurd (cc (rw (bad, answer) at f))
          | inr (false, q) ↦ absurd (ground (arith, (rw (q, answer) at f)))
          | inr (true, q) ↦ elim (Run-cases (pluck_claims h.fwd_headers tok.claims)) [
            | inl bad ↦ absurd (cc (rw (q, bad, answer) at f))
            | inr (unsupported, u) ↦ absurd (ground (arith, (rw (q, u, answer) at f)))
            | inr (ok hdrs, u) ↦ record {
              tok = tok;
              key = key;
              hdrs = hdrs;
              has_token = set;
              decoded = decoded;
              key_for = key_for;
              verified = verified;
              accepted = q;
              plucked = u;
              answered = cc (rw (q, u, answer) at f);
            }
          ]
        ]
