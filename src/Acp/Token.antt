-- ===== src/Acp/Token.antt =====
-- pkg/acp/token/source.go: where a request carries its token.
pub mod Laws
use hub_agent_kubernetes.Prelude.{
  Char, String, Bool, true, false, ◌&&◌, ◌||◌, not, Option, none, some, List, [], ◌∷◌, ◌++◌, Eq,
  ◌==◌, string_eq, if◌then◌else◌,
}
use hub_agent_kubernetes.Strings.{runes, string_of, char_eq, trim_space}

pub record Source : Type 0 where
  pub header : String
  pub header_auth_scheme : String
  pub query : String
  pub cookie : String

-- What the source reads of `*http.Request`: `Header.Get`, which gives "" for a missing header,
-- `Cookie`, and `URL.Query().Get`.
pub record Request : Type 0 where
  pub header_get : String → String
  pub cookie_value : String → Option String
  pub query_get : String → String

-- What the source uses of the package `net/url`: `url.Parse` with `Query().Get`, and
-- `url.QueryUnescape`; `none` is an error.
pub record Urls : Type 0 where
  pub parse_query : String → Option (String → String)
  pub query_unescape : String → Option String

-- `strings.SplitN(s, sep, 2)` for a separator of one character; `none` is a single part.
unfoldable pub cut : List Char → Char → Option (List Char × List Char)
cut [] sep = none
cut (c ∷ s) sep =
    let rest = cut s sep in
    if c == sep
    then some ([], s)
    else elim rest [ none ↦ none | some (before, after) ↦ some (c ∷ before, after) ]

abbrev pub space : Char
space = " "

-- `getTokenFromHeader`; "" is no token.
unfoldable pub get_token_from_header : Request → String → String → String
unfolding cut trim_space
get_token_from_header req header_name header_auth_scheme =
    let token = req.header_get header_name in
    if token == ""
    then ""
    else if header_name == "Authorization" && not (header_auth_scheme == "")
    then elim (cut (runes token) space) [
      | none ↦ ""
      | some (scheme, rest) ↦
          if not (string_of scheme == header_auth_scheme) then "" else string_of (trim_space rest)
    ]
    else token

unfoldable pub original_uri : Request → String
original_uri req =
    let xfu = req.header_get "X-Forwarded-Uri" in
    if not (xfu == "") then xfu else req.header_get "X-Original-Url"

-- `getTokenFromQuery`; `none` is an error, "" no token.
unfoldable pub get_token_from_query : Urls → Request → String → Option String
unfolding original_uri
get_token_from_query urls req key =
    let uri = original_uri req in
    if uri == ""
    then some ""
    else elim (urls.parse_query uri) [ none ↦ none | some get ↦ some (get key) ]

-- The last part of `Extract`.
unfoldable pub extract_cookie : Request → Source → Option String
extract_cookie req src = if src.cookie == "" then none else elim (req.cookie_value src.cookie) [
  | none ↦ none
  | some value ↦ if value == "" then none else some value
]

unfoldable pub extract_query : Urls → Request → Source → Option String
unfolding get_token_from_query extract_cookie
extract_query urls req src =
    if src.query == ""
    then extract_cookie req src
    else elim (get_token_from_query urls req src.query) [
      | none ↦ none
      | some token ↦ if token == "" then extract_cookie req src else some token
    ]

-- `Extract`; `none` is an error.
unfoldable pub extract : Urls → Request → Source → Option String
unfolding get_token_from_header extract_query
extract urls req src =
    let token = get_token_from_header req src.header src.header_auth_scheme in
    let rest = extract_query urls req src in
    if src.header == "" then rest else if token == "" then rest else some token
