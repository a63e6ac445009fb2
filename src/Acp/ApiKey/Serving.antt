-- ===== src/Acp/ApiKey/Serving.antt =====
-- Which requests `ServeHTTP` of pkg/acp/apikey/api_key.go lets through.
use hub_agent_kubernetes.Prelude.{
  ℕ, String, true, ◌||◌, none, some, List, [], ◌∷◌, ◌≡◌, ◌≢◌, ◌↔◌, inl, inr, refl, ap, sym, ◌∙◌,
  ◌==◌, string_eq, lookup, any, arith, Bool-cases, Option-cases, eq_of_==, ==_refl,
}
use hub_agent_kubernetes.Acp.Token.{Request, Urls, extract}
use hub_agent_kubernetes.Acp.ApiKey.{
  Key, Config, Handler, new_handler, search, split_comma, shares_group, check_groups, serve_http,
}
use hub_agent_kubernetes.Acp.ApiKey.Keys.{key_of, new_handler-key_of}

abbrev pub Holds : String → List String → Type 0
Holds g groups = any (λ s. s == g) groups ≡ true

-- The groups that the query asks for are none, or have one in common with those of the key.
pub data MayAccess (urls : Urls) (req : Request) (k : Key) : Type 0 where
  unasked : req.query_get "groups" ≡ "" → MayAccess urls req k
  member :
      (groups user_groups g : String)
      → urls.query_unescape (req.query_get "groups") ≡ some groups
      → lookup "groups" k.metadata ≡ some user_groups
      → Holds g (split_comma groups)
      → Holds g (split_comma user_groups)
      → MayAccess urls req k

search-Holds : (g : String) (stack : List String) → search g stack ≡ any (λ s. s == g) stack
unfolding search
search-Holds g [] = refl
search-Holds g (s ∷ stack) = ap (λ b. s == g || b) (search-Holds g stack)

shares_group-common :
    (groups user_groups : List String)
    → shares_group groups user_groups ≡ true
    → (g : String) × Holds g groups × Holds g user_groups
unfolding shares_group
shares_group-common [] user_groups h = absurd (cc h)
shares_group-common (g ∷ groups) user_groups h = elim (Bool-cases (search g user_groups)) [
  | inl e ↦ (g, ground (arith, ==_refl g), sym (search-Holds g user_groups) ∙ e)
  | inr e ↦
      let (c, l, r) = shares_group-common groups user_groups (rw e at h) in
      (c, ground (arith, l), r)
]

common-shares_group :
    (groups user_groups : List String) (g : String)
    → Holds g groups
    → Holds g user_groups
    → shares_group groups user_groups ≡ true
unfolding shares_group
common-shares_group [] user_groups g l r = l
common-shares_group (s ∷ groups) user_groups g l r = elim (Bool-cases (s == g)) [
  | inl e ↦
      let p = eq_of_== s g e in
      let found : search s user_groups ≡ true = rw p (search-Holds g user_groups ∙ r) in rw found
  | inr e ↦
      let rest = common-shares_group groups user_groups g (rw e at l) r in ground (arith, rest)
]

check_groups-MayAccess :
    (urls : Urls) (req : Request) (k : Key) → check_groups urls req k ≡ none → MayAccess urls req k
unfolding check_groups
check_groups-MayAccess urls req k h = elim (Bool-cases (req.query_get "groups" == "")) [
  | inl e ↦ unasked (eq_of_== (req.query_get "groups") "" e)
  | inr e ↦ elim (Option-cases (urls.query_unescape (req.query_get "groups"))) [
    | inl bad ↦ absurd (cc (rw (e, bad, check_groups) at h))
    | inr (groups, asked) ↦ elim (Option-cases (lookup "groups" k.metadata)) [
      | inl none_there ↦ absurd (cc (rw (e, asked, none_there, check_groups) at h))
      | inr (user_groups, has) ↦
          elim (Bool-cases (shares_group (split_comma groups) (split_comma user_groups))) [
            | inl shared ↦
                let (g, l, r) =
                  shares_group-common (split_comma groups) (split_comma user_groups) shared in
                member groups user_groups g asked has l r
            | inr apart ↦ absurd (cc (rw (e, asked, has, apart, check_groups) at h))
          ]
    ]
  ]
]

-- The groups never reject with status 200.
check_groups-ne_ok :
    (urls : Urls) (req : Request) (k : Key) (status : ℕ)
    → check_groups urls req k ≡ some status
    → status ≢ 200
unfolding check_groups
check_groups-ne_ok urls req k status h = ground arith

MayAccess-check_groups :
    (urls : Urls) (req : Request) (k : Key) → MayAccess urls req k → check_groups urls req k ≡ none
unfolding check_groups
MayAccess-check_groups urls req k (unasked e) = rw (e, check_groups)
MayAccess-check_groups urls req k (member groups user_groups g asked has l r) =
    let shared = common-shares_group (split_comma groups) (split_comma user_groups) g l r in
    elim (Bool-cases (req.query_get "groups" == "")) [
      | inl e ↦ rw (e, check_groups)
      | inr e ↦ rw (e, asked, has, shared, check_groups)
    ]

-- The request carries a key of the configuration, whose groups suffice.
abbrev pub Authorized : Urls → (String → String) → Config → Handler → Request → Type 0
Authorized urls shake256 cfg h req =
    (api_key : String) × (k : Key) × (extract urls req h.key_src ≡ some api_key)
    × (key_of (shake256 api_key) cfg.keys ≡ some k)
    × MayAccess urls req k

-- A handler that `NewHandler` gives lets a request through, with status 200, just where it carries a
-- key whose hash is the value of a key of the configuration, and the groups that its query asks for,
-- if any, have one in common with the groups of that key.
pub serve_http-Authorized :
    (urls : Urls) (shake256 : String → String) (cfg : Config) (name : String) (h : Handler)
    (req : Request)
    → new_handler cfg name ≡ some h
    → ((serve_http urls shake256 h req).status ≡ 200) ↔ Authorized urls shake256 cfg h req
unfolding serve_http
serve_http-Authorized urls shake256 cfg name h req built = (forth, back)
  where
    forth : (serve_http urls shake256 h req).status ≡ 200 → Authorized urls shake256 cfg h req
    forth ok = elim (Option-cases (extract urls req h.key_src)) [
      | inl e ↦ absurd (omega (arith, (rw (e, serve_http) at ok)))
      | inr (api_key, e) ↦ elim (Option-cases (lookup (shake256 api_key) h.keys)) [
        | inl l ↦ absurd (omega (arith, (rw (e, l, serve_http) at ok)))
        | inr (k, l) ↦ elim (Option-cases (check_groups urls req k)) [
          | inl c ↦ (
            api_key,
            k,
            e,
            sym (new_handler-key_of cfg name h (shake256 api_key) built) ∙ l,
            check_groups-MayAccess urls req k c,
          )
          | inr (status, c) ↦
              let is_status : status ≡ 200 = rw (e, l, c, serve_http) at ok in
              absurd (check_groups-ne_ok urls req k status c is_status)
        ]
      ]
    ]

    back : Authorized urls shake256 cfg h req → (serve_http urls shake256 h req).status ≡ 200
    back (api_key, k, e, l, may) =
        let found = new_handler-key_of cfg name h (shake256 api_key) built ∙ l in
        let groups = MayAccess-check_groups urls req k may in rw (e, found, groups, serve_http)
