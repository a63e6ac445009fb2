-- ===== src/Acp/Jwt/Handler/Held.antt =====
-- The keys that a handler of pkg/acp/jwt has for a token: those of its key set, or of the issuer's.
use hub_agent_kubernetes.Prelude.{
  String, Option, none, some, List, [], ◌≡◌, ap, ◌∙◌, string_eq, nat_eq, default, lookup, ret,
  >>=-eq-ret, Option-cases, inl, inr,
}
use hub_agent_kubernetes.Expr
use hub_agent_kubernetes.Expr.{Value, str}
use hub_agent_kubernetes.Acp.Jwt.{PublicKey, Jwk, VerificationKey, public}
use hub_agent_kubernetes.Acp.Jwt.KeySets.{
  remote_key, Searched, failed, searched, FileKeySet, RemoteKeySet, new_remote_key_set, KeySet,
  content, file, remote,
}
use hub_agent_kubernetes.Acp.Jwt.KeySets.Held.{
  InKeys, FileHolds, UrlHolds, answer_in, key_in, key_of-InKeys, file_key-InKeys, remote_key-InKeys,
}
use hub_agent_kubernetes.Acp.Jwt.Settings.{Handler}
use hub_agent_kubernetes.Acp.Jwt.Handler.{
  Token, World, remote_key_set, found_key, search_key_set, search_issuer, text_claim, resolve_key,
}

-- The keys that a handler has for a token: those of the key set of the configuration, or, without
-- one, those at the URL of the issuer that the token names.
pub data Holds (w : World) (h : Handler) (tok : Token) : List Jwk → Type 0 where
  of_content : {keys : List Jwk} → h.key_set ≡ some (content keys) → Holds w h tok keys
  of_file :
      {keys : List Jwk} {ks : FileKeySet}
      → h.key_set ≡ some (file ks)
      → FileHolds (w.files ks.path) w.now ks keys
      → Holds w h tok keys
  of_url :
      {keys : List Jwk} {ks : RemoteKeySet}
      → h.key_set ≡ some (remote ks)
      → UrlHolds w.server w.now ks keys
      → Holds w h tok keys
  of_issuer :
      {keys : List Jwk} {iss url : String} {ks : RemoteKeySet}
      → h.key_set ≡ none
      → Expr.get "iss" tok.claims ≡ some (str iss)
      → w.resolve iss h.jwks_url ≡ some url
      → lookup url h.dyn_key_sets ≡ some ks
      → UrlHolds w.server w.now ks keys
      → Holds w h tok keys
  of_new_issuer :
      {keys : List Jwk} {iss url : String}
      → h.key_set ≡ none
      → Expr.get "iss" tok.claims ≡ some (str iss)
      → w.resolve iss h.jwks_url ≡ some url
      → lookup url h.dyn_key_sets ≡ none
      → UrlHolds w.server w.now (record { url = url; keys = []; expiry = 0 }) keys
      → Holds w h tok keys

abbrev public_in : PublicKey → Option VerificationKey → PublicKey
public_in j (some (public k)) = k
public_in j o = j

-- The handler has, for the token, a key set with this key under this ID.
abbrev pub IsHeld : World → Handler → Token → String → PublicKey → Type 0
IsHeld w h tok id k = (keys : List Jwk) × Holds w h tok keys × InKeys keys id k

search_key_set-IsHeld :
    (w : World) (h : Handler) (tok : Token) (set : KeySet) (id : String) (k : PublicKey)
    → h.key_set ≡ some set
    → (search_key_set w set id).1 ≡ ret (searched (some k))
    → IsHeld w h tok id k
unfolding search_key_set
search_key_set-IsHeld w h tok (content keys) id k is e =
    (keys, of_content is, key_of-InKeys keys id k (ap key_in e))
search_key_set-IsHeld w h tok (file ks) id k is e =
    let (keys, held, found) = file_key-InKeys (w.files ks.path) w.now id ks k e in
    (keys, of_file is held, found)
search_key_set-IsHeld w h tok (remote ks) id k is e =
    let (keys, held, found) = remote_key-InKeys w.server w.now id ks k (ap (answer_in failed) e) in
    (keys, of_url is held, found)

found_key-searched :
    (s : Searched) (k : PublicKey) → found_key s ≡ some (public k) → s ≡ searched (some k)
found_key-searched failed k e = absurd (cc e)
found_key-searched (searched none) k e = absurd (cc e)
found_key-searched (searched (some j)) k e =
    ap (λ (o : Option VerificationKey). searched (some (public_in j o))) e

iss_text :
    (claim : Option Value) (iss : String) → text_claim claim ≡ some iss → claim ≡ some (str iss)
iss_text (some (str s)) iss e = ap (λ (o : Option String). some (str (default s o))) e
iss_text claim iss e = absurd (cc e)

search_issuer-IsHeld :
    (w : World) (h : Handler) (tok : Token) (iss id : String) (k : PublicKey)
    → h.key_set ≡ none
    → Expr.get "iss" tok.claims ≡ some (str iss)
    → (search_issuer w h iss id).1 ≡ some (public k)
    → IsHeld w h tok id k
unfolding search_issuer remote_key_set
search_issuer-IsHeld w h tok iss id k unset named e =
    elim (Option-cases (w.resolve iss h.jwks_url)) [
      | inl bad ↦ absurd (cc (rw (bad, search_issuer, remote_key_set) at e))
      | inr (url, resolved) ↦ elim (Option-cases (lookup url h.dyn_key_sets)) [
        | inr (ks, known) ↦
            let p : (remote_key w.server w.now id ks).1 ≡ searched (some k) =
              found_key-searched (remote_key w.server w.now id ks).1 k
                (rw (resolved, known, search_issuer, remote_key_set) at e) in
            let (keys, held, found) = remote_key-InKeys w.server w.now id ks k p in
            (keys, of_issuer unset named resolved known held, found)
        | inl new ↦
            let ks = new_remote_key_set url in
            let p : (remote_key w.server w.now id ks).1 ≡ searched (some k) =
              found_key-searched (remote_key w.server w.now id ks).1 k
                (rw (resolved, new, search_issuer, remote_key_set) at e) in
            let (keys, held, found) = remote_key-InKeys w.server w.now id ks k p in
            (keys, of_new_issuer unset named resolved new held, found)
      ]
    ]

-- A key that the handler resolves is one under that ID in the key set that it has for the token.
pub resolve_key-IsHeld :
    (w : World) (h : Handler) (tok : Token) (id : String) (k : PublicKey)
    → (resolve_key w h tok id).1 ≡ ret (some (public k))
    → IsHeld w h tok id k
unfolding resolve_key
resolve_key-IsHeld w h tok id k e = elim (Option-cases h.key_set) [
  | inr (set, given) ↦
      let (found, s, f) =
        >>=-eq-ret (search_key_set w set id).1 (λ (found : Searched). ret (found_key found))
          (rw (given, resolve_key) at e) in
      let p : found ≡ searched (some k) = found_key-searched found k (cc f) in
      search_key_set-IsHeld w h tok set id k given (s ∙ ap ret p)
  | inl unset ↦ elim (Option-cases (text_claim (Expr.get "iss" tok.claims))) [
    | inl bad ↦ absurd (cc (rw (unset, bad, resolve_key) at e))
    | inr (iss, named) ↦
        search_issuer-IsHeld w h tok iss id k unset (iss_text (Expr.get "iss" tok.claims) iss named)
          (cc (rw (unset, named, resolve_key) at e))
  ]
]
