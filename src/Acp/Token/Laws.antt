-- ===== src/Acp/Token/Laws.antt =====
-- What pkg/acp/token/source.go takes for a token.
use hub_agent_kubernetes.Prelude.{
  Char, String, Bool, true, false, Option, none, some, List, [], ◌∷◌, ◌++◌, ◌≡◌, ◌≢◌, refl, ap, sym,
  ◌∙◌, ◌==◌, string_eq, arith, inl, inr, Bool-cases, Option-cases, eq_of_==, ==_ne, str_iff,
}
use hub_agent_kubernetes.Strings.{runes, string_of, char_eq, trim_space, runes-string_of}
use hub_agent_kubernetes.Acp.Token.{
  Source, Request, Urls, cut, space, get_token_from_header, extract_cookie, extract_query, extract,
}

cut-append :
    (s : List Char) (sep : Char) (p : List Char × List Char)
    → cut s sep ≡ some p
    → s ≡ p.0 ++ sep ∷ p.1
unfolding cut
cut-append [] sep p h = absurd (cc h)
cut-append (c ∷ s) sep p h = elim (Bool-cases (c == sep)) [
  | inl e ↦ let q : ([], s) ≡ p = cc (rw e at h) in rw (← q) (ap (λ x. x ∷ s) (eq_of_== c sep e))
  | inr e ↦ elim (Option-cases (cut s sep)) [
    | inl none_in ↦ absurd (cc (rw (e, none_in, cut) at h))
    | inr (q, found) ↦
        let r : (c ∷ q.0, q.1) ≡ p = cc (rw (e, found, cut) at h) in
        rw (← r) (ap (λ l. c ∷ l) (cut-append s sep q found))
  ]
]

-- The header has the scheme and a space before the rest, which the token is taken from.
abbrev pub Carries : Request → String → Type 0
Carries req scheme =
    (rest : List Char) × (runes (req.header_get "Authorization") ≡ runes scheme ++ space ∷ rest)
    × (get_token_from_header req "Authorization" scheme ≡ string_of (trim_space rest))

-- A source with a scheme takes the token of an `Authorization` header only after that scheme and a
-- space, without the spaces around it.
pub get_token_from_header-scheme :
    (req : Request) (scheme : String)
    → scheme ≢ ""
    → get_token_from_header req "Authorization" scheme ≢ ""
    → Carries req scheme
unfolding get_token_from_header
get_token_from_header-scheme req scheme h token =
    go (req.header_get "Authorization" == "") refl
      (cut (runes (req.header_get "Authorization")) space) refl
  where
    set : (scheme == "") ≡ false
    set = ==_ne scheme "" h

    go :
        (empty : Bool)
        → (req.header_get "Authorization" == "") ≡ empty
        → (o : Option (List Char × List Char))
        → cut (runes (req.header_get "Authorization")) space ≡ o
        → Carries req scheme
    go true e o p = absurd (token (rw (e, get_token_from_header)))
    go false e none p = absurd (token (rw (e, set, p, get_token_from_header)))
    go false e (some (name, rest)) p = elim (Bool-cases (string_of name == scheme)) [
      | inl same ↦
          let whole = cut-append (runes (req.header_get "Authorization")) space (name, rest) p in
          let named : name ≡ runes scheme =
            sym (runes-string_of name) ∙ ap runes (eq_of_== (string_of name) scheme same) in
          (
            rest,
            whole ∙ ap (λ l. l ++ space ∷ rest) named,
            rw (e, set, p, same, get_token_from_header),
          )
      | inr other ↦ absurd (token (rw (e, set, p, other, get_token_from_header)))
    ]

extract_cookie-ne_empty :
    (req : Request) (src : Source) (token : String)
    → extract_cookie req src ≡ some token
    → token ≢ ""
unfolding extract_cookie
extract_cookie-ne_empty req src token h = ground (arith, str_iff token "")

extract_query-ne_empty :
    (urls : Urls) (req : Request) (src : Source) (token : String)
    → extract_query urls req src ≡ some token
    → token ≢ ""
unfolding extract_query
extract_query-ne_empty urls req src token h =
    ground (arith, str_iff token "", extract_cookie-ne_empty req src token)

-- `Extract` never gives an empty token.
pub extract-ne_empty :
    (urls : Urls) (req : Request) (src : Source) (token : String)
    → extract urls req src ≡ some token
    → token ≢ ""
unfolding extract
extract-ne_empty urls req src token h =
    ground (arith, str_iff token "", extract_query-ne_empty urls req src token)
