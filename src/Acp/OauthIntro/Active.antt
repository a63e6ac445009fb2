-- ===== src/Acp/OauthIntro/Active.antt =====
-- Which requests `ServeHTTP` of pkg/acp/oauthintro/oauth_intro.go lets through.
use hub_agent_kubernetes.Prelude.{
  String, true, ◌||◌, none, some, List, [], ◌∷◌, ◌++◌, if◌then◌else◌, GoMap, lookup, ◌≡◌, ◌≢◌, ◌==◌,
  nat_eq, string_eq, ret,
}
use hub_agent_kubernetes.Expr
use hub_agent_kubernetes.Expr.{Claims}
use hub_agent_kubernetes.Expr.Pluck.{ok, pluck_claims}
use hub_agent_kubernetes.Acp.Responses.{Response, added, accepts}
use hub_agent_kubernetes.Acp.Token.{Request, Urls, extract}
use hub_agent_kubernetes.Acp.OauthIntro.{
  Handler, Server, Introspection, Introspected, execute, introspection, is_active,
}

-- The request carries a token, the server is sent this token, and it answers with status 200 and
-- claims by which the token is active, that the predicate accepts, and that give the headers of the response.
pub record IsActive (urls : Urls) (server : Server) (h : Handler) (req : Request) (a : Response)
    : Type 0 where
  pub tok : String
  pub sets : List (String × String)
  pub sent : Introspection
  pub resp : Introspected
  pub claims : Claims
  pub hdrs : GoMap String (List String)
  pub extracted : extract urls req h.token_src ≡ some tok
  pub nonempty : tok ≢ ""
  pub executed : execute req h.headers ≡ some sets
  pub url : sent.url ≡ h.url
  pub token : lookup "token" sent.form ≡ some tok
  pub hint :
      lookup "token_type_hint" sent.form
      ≡ (if h.token_type_hint == "" then none else some h.token_type_hint)
  pub auth_query :
      lookup h.auth.key sent.query ≡ (if h.auth.kind == "Query" then some h.auth.value else none)
  pub auth_headers :
      sent.headers
      ≡ ("Content-Type", "application/x-www-form-urlencoded") ∷ ("Accept", "application/json") ∷ []
        ++ sets
        ++ (if h.auth.kind == "Bearer" || h.auth.kind == "Basic" || h.auth.kind == "Header"
            then (h.auth.key, h.auth.value) ∷ []
            else [])
  pub answered : server.post sent ≡ some resp
  pub succeeds : resp.status ≡ 200
  pub decoded : resp.body ≡ some claims
  pub active : is_active (Expr.get "active" claims) ≡ true
  pub accepted : accepts h.validate_custom_claims claims ≡ ret true
  pub plucked : pluck_claims h.fwd_headers claims ≡ ret (ok hdrs)
  pub headers : a.headers ≡ added hdrs

abbrev Asked : Server → Handler → Request → String → Claims → Type 0
Asked server h req tok claims =
    (sets : List (String × String)) × (resp : Introspected) × (execute req h.headers ≡ some sets)
    × (server.post (introspection h tok sets) ≡ some resp)
    × (resp.status ≡ 200)
    × (resp.body ≡ some claims)
