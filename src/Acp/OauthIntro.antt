-- ===== src/Acp/OauthIntro.antt =====
-- pkg/acp/oauthintro/oauth_intro.go: tokens that the authorization server is asked about.
pub mod Active
mod Tests
use hub_agent_kubernetes.Prelude.{
  ℕ, String, Bool, true, false, ◌&&◌, not, Option, none, some, List, [], ◌∷◌, ◌++◌, ◌==◌, string_eq,
  nat_eq, if◌then◌else◌, GoMap, map, Run, ret, panic, ◌>>=◌,
}
use hub_agent_kubernetes.Expr
use hub_agent_kubernetes.Expr.{Value, bool, Claims}
use hub_agent_kubernetes.Expr.Predicates.{Predicate}
use hub_agent_kubernetes.Expr.Pluck.{ok, unsupported, pluck_claims}
use hub_agent_kubernetes.Acp.Responses.{Response, rejected, added, accepts}
use hub_agent_kubernetes.Acp.Token.{Source, Request, Urls, extract}

pub record SecretReference : Type 0 where
  pub name : String
  pub namespace : String

pub record ClientConfigAuth : Type 0 where
  pub kind : String
  pub secret : SecretReference
  pub key : String
  pub value : String

-- The embedded `httpclient.Config` aside.
pub record ClientConfig : Type 0 where
  pub url : String
  pub auth : ClientConfigAuth
  pub headers : GoMap String String
  pub token_type_hint : String

pub record Config : Type 0 where
  pub client_config : ClientConfig
  pub token_source : Source
  pub claims : String
  pub forward_headers : GoMap String String

-- A template of `text/template`, by what it gives for a request; `none` is an error.
abbrev pub Template : Type 0
Template = Request → Option String

pub record Handler : Type 0 where
  pub name : String
  pub url : String
  pub headers : List (String × Template)
  pub token_type_hint : String
  pub auth : ClientConfigAuth
  pub token_src : Source
  pub fwd_headers : GoMap String String
  pub validate_custom_claims : Option Predicate

-- What `NewHandler` calls of other packages; `none` is an error: `expr.Parse` and the parser of
-- templates. `client_made` is whether `httpclient.New` gives a client.
pub record Parsers : Type 0 where
  pub parse_predicate : String → Option Predicate
  pub parse_template : String → Option Template
  pub client_made : Bool

-- The loop over the headers; `none` is an error.
unfoldable pub parse_templates : Parsers → GoMap String String → Option (List (String × Template))
parse_templates parsers [] = some []
parse_templates parsers ((key, val) ∷ headers) =
    let rest = parse_templates parsers headers in
    elim (parsers.parse_template val) [
      | none ↦ none
      | some t ↦ elim rest [ none ↦ none | some ts ↦ some ((key, t) ∷ ts) ]
    ]

abbrev pub predicate_of : Parsers → String → Option (Option Predicate)
predicate_of parsers claims =
    if claims == ""
    then some none
    else elim (parsers.parse_predicate claims) [ none ↦ none | some p ↦ some (some p) ]

-- The checks at the head of `NewHandler`.
abbrev pub is_complete : Config → Bool
is_complete cfg =
    let client = cfg.client_config in
    let src = cfg.token_source in
    not (client.url == "")
    && (not (client.auth.kind == "")
        && (not (client.auth.secret.name == "")
            && (not (client.auth.secret.namespace == "")
                && not (src.header == "" && (src.query == "" && src.cookie == "")))))

-- `NewHandler`; `none` is an error.
unfoldable pub new_handler : Parsers → Config → String → Option Handler
unfolding parse_templates
new_handler parsers cfg pol_name =
    if not (is_complete cfg)
    then none
    else if not parsers.client_made
    then none
    else elim (predicate_of parsers cfg.claims) [
      | none ↦ none
      | some pred ↦ elim (parse_templates parsers cfg.client_config.headers) [
        | none ↦ none
        | some tmpls ↦ some (record {
          name = pol_name;
          url = cfg.client_config.url;
          headers = tmpls;
          token_type_hint = cfg.client_config.token_type_hint;
          auth = cfg.client_config.auth;
          token_src = cfg.token_source;
          fwd_headers = cfg.forward_headers;
          validate_custom_claims = pred;
        })
      ]
    ]

-- The request to the authorization server: its form, the headers in the order in which they are
-- set, and the parameters set in its query.
pub record Introspection : Type 0 where
  pub url : String
  pub form : List (String × String)
  pub headers : List (String × String)
  pub query : List (String × String)

-- The answer: its status, and the claims that its body decodes to.
pub record Introspected : Type 0 where
  pub status : ℕ
  pub body : Option Claims

-- `http.NewRequest` takes the URL, and the server answers; `none` is an error.
pub record Server : Type 0 where
  pub accepts_url : String → Bool
  pub post : Introspection → Option Introspected

-- The loop over the templates; `none` is an error.
unfoldable pub execute : Request → List (String × Template) → Option (List (String × String))
execute req [] = some []
execute req ((name, t) ∷ templates) =
    let rest = execute req templates in
    elim (t req) [
      | none ↦ none
      | some text ↦ elim rest [ none ↦ none | some sets ↦ some ((name, text) ∷ sets) ]
    ]

abbrev pub auth_query : ClientConfigAuth → List (String × String)
auth_query auth = if auth.kind == "Query" then (auth.key, auth.value) ∷ [] else []

abbrev pub is_header_kind : String → Bool
is_header_kind kind =
    if kind == "Bearer" then true else if kind == "Basic" then true else kind == "Header"

abbrev pub auth_header : ClientConfigAuth → List (String × String)
auth_header auth = if is_header_kind auth.kind then (auth.key, auth.value) ∷ [] else []

abbrev pub token_form : Handler → String → List (String × String)
token_form h tok =
    ("token", tok)
    ∷ (if h.token_type_hint == "" then [] else ("token_type_hint", h.token_type_hint) ∷ [])

-- The request of `introspectToken`, with the headers of the templates.
unfoldable pub introspection : Handler → String → List (String × String) → Introspection
introspection h tok sets = record {
  url = h.url;
  form = token_form h tok;
  headers =
      ("Content-Type", "application/x-www-form-urlencoded") ∷ ("Accept", "application/json") ∷ sets
      ++ auth_header h.auth;
  query = auth_query h.auth;
}

-- `introspectToken`; `none` is an error.
unfoldable pub introspect_token : Server → Handler → Request → String → Option Claims
unfolding execute introspection
introspect_token server h req tok =
    if not (server.accepts_url h.url) then none else elim (execute req h.headers) [
      | none ↦ none
      | some sets ↦ elim (server.post (introspection h tok sets)) [
        | none ↦ none
        | some resp ↦ if not (resp.status == 200) then none else resp.body
      ]
    ]

-- `claims["active"].(bool)`, and its value
abbrev pub is_active : Option Value → Bool
is_active (some (bool b)) = b
is_active claim = false

-- The part of `ServeHTTP` after the introspection.
unfoldable pub admit : Handler → Claims → Run Response
unfolding Expr.get pluck_claims
admit h claims =
    if not (is_active (Expr.get "active" claims))
    then ret (rejected 401)
    else (accepts h.validate_custom_claims claims >>= λ accepted.
        if not accepted
        then ret (rejected 403)
        else (pluck_claims h.fwd_headers claims >>= λ plucked. elim plucked [
          | unsupported ↦ ret (rejected 500)
          | ok hdrs ↦ ret (record { status = 200; headers = added hdrs })
        ]))

-- `ServeHTTP`
unfoldable pub serve_http : Urls → Server → Handler → Request → Run Response
unfolding extract introspect_token admit
serve_http urls server h req = elim (extract urls req h.token_src) [
  | none ↦ ret (rejected 401)
  | some tok ↦ elim (introspect_token server h req tok) [
    | none ↦ ret (rejected 500)
    | some claims ↦ admit h claims
  ]
]
