-- ===== src/Acp/Oidc/Login/Callback.antt =====
-- When `handleProviderCallback` of pkg/acp/oidc/oidc.go begins a session.
use hub_agent_kubernetes.Prelude.{
  String, true, false, Option, none, some, List, [], ◌∷◌, ◌++◌, ◌≡◌, ◌==◌, string_eq, nat_eq,
  eq_of_==, arith, ret, >>=-eq-ret, Run-cases, Bool-cases, Option-cases, inl, inr,
}
use hub_agent_kubernetes.Acp.Oidc.{
  StateData, AuthStateCookie, HttpCookie, expired, default_mode, Got, absent, broken, got,
}
use hub_agent_kubernetes.Acp.Oidc.Cookie.{create}
use hub_agent_kubernetes.Acp.Oidc.Handler.{
  Token, IdToken, Url, World, Handler, Request, Answer, redirect, cat,
}
use hub_agent_kubernetes.Acp.Oidc.Login.State.{BringsState, get_state_cookie-BringsState}
use hub_agent_kubernetes.Acp.Oidc.Login.{
  clear_state_cookie, get_state_cookie, session_of, begin, exchange_code, handle_provider_callback,
}

-- The cookie that makes a browser drop the state of the handler.
abbrev pub dropped_state : Handler → AuthStateCookie → HttpCookie
dropped_state h cfg = record {
  name = cat (h.name ∷ "-state" ∷ []);
  value = [];
  path = "/";
  domain = cfg.domain;
  max_age = expired;
  http_only = false;
  same_site = default_mode;
  secure = false;
}

-- The request comes back from the provider with the state of the browser's cookie and a code, for
-- which the provider gives a token; the nonce of its verified ID token is that of the state, and the
-- answer stores the session, drops the state and sends the user to where it began.
pub record Begins (h : Handler) (w : World) (req : Request) (redirect_url : String) (a : Answer)
    : Type 0 where
  pub state : StateData
  pub url : Url
  pub tok : Token
  pub raw : String
  pub id_token : IdToken
  pub cookies : List HttpCookie
  pub cfg : AuthStateCookie
  pub brings_state : BringsState h w req state
  pub configured : h.cfg.state_cookie ≡ some cfg
  pub has_url : w.parse_url (req.header_get "X-Forwarded-Uri") ≡ some url
  pub same_state : url.query_get "state" ≡ state.redirect_id
  pub exchanged :
      h.provider.exchange (url.query_get "code") (("redirect_uri", redirect_url) ∷ []) ≡ some tok
  pub has_id_token : tok.id_token ≡ some raw
  pub verified : h.provider.verify raw ≡ some id_token
  pub same_nonce : id_token.nonce ≡ state.nonce
  pub stored :
      create h.block w.session_json w.draws_session h.session (session_of tok raw)
      ≡ ret (some cookies)
  pub answered : a ≡ redirect state.origin_url (cookies ++ dropped_state h cfg ∷ [])

-- A session that was created is answered for with the state dropped.
begin-dropped :
    (h : Handler) (state : StateData) (cookies : List HttpCookie) (a : Answer)
    → begin h state (some cookies) ≡ ret a
    → (cfg : AuthStateCookie) × (h.cfg.state_cookie ≡ some cfg)
      × (a ≡ redirect state.origin_url (cookies ++ dropped_state h cfg ∷ []))
unfolding begin clear_state_cookie
begin-dropped h state cookies a e = elim (Option-cases h.cfg.state_cookie) [
  | inl unset ↦ absurd (cc (rw (unset, begin, clear_state_cookie) at e))
  | inr (cfg, is) ↦ (cfg, is, cc (rw (is, begin, clear_state_cookie) at e))
]

abbrev Exchanged : Handler → World → StateData → String → String → Answer → Type 0
Exchanged h w state redirect_url code a =
    (tok : Token) × (raw : String) × (id_token : IdToken) × (cookies : List HttpCookie)
    × (cfg : AuthStateCookie) × (h.provider.exchange code (("redirect_uri", redirect_url) ∷ [])
        ≡ some tok)
    × (tok.id_token ≡ some raw)
    × (h.provider.verify raw ≡ some id_token)
    × (id_token.nonce ≡ state.nonce)
    × (create h.block w.session_json w.draws_session h.session (session_of tok raw)
        ≡ ret (some cookies))
    × (h.cfg.state_cookie ≡ some cfg)
    × (a ≡ redirect state.origin_url (cookies ++ dropped_state h cfg ∷ []))

exchange_code-Exchanged :
    (h : Handler) (w : World) (state : StateData) (redirect_url code : String) (a : Answer)
    → exchange_code h w state redirect_url code ≡ ret a
    → a.status ≡ 302
    → Exchanged h w state redirect_url code a
unfolding exchange_code begin
exchange_code-Exchanged h w state redirect_url code a e moved =
    elim (Option-cases (h.provider.exchange code (("redirect_uri", redirect_url) ∷ []))) [
      | inl no_token ↦ absurd (ground (arith, (rw (no_token, exchange_code) at e)))
      | inr (tok, t) ↦ elim (Option-cases tok.id_token) [
        | inl no_id ↦ absurd (ground (arith, (rw (t, no_id, exchange_code) at e)))
        | inr (raw, r) ↦ elim (Option-cases (h.provider.verify raw)) [
          | inl bad ↦ absurd (ground (arith, (rw (t, r, bad, exchange_code) at e)))
          | inr (id_token, v) ↦ elim (Bool-cases (id_token.nonce == state.nonce)) [
            | inr other ↦ absurd (ground (arith, (rw (t, r, v, other, exchange_code) at e)))
            | inl same ↦
                let last = rw (t, r, v, same, exchange_code) at e in
                let (created, c, f) =
                  >>=-eq-ret
                    (create h.block w.session_json w.draws_session h.session (session_of tok raw))
                    (begin h state) last in
                stored tok raw id_token created t r v same c f
          ]
        ]
      ]
    ]
  where
    stored :
        (tok : Token) (raw : String) (id_token : IdToken) (created : Option (List HttpCookie))
        → h.provider.exchange code (("redirect_uri", redirect_url) ∷ []) ≡ some tok
        → tok.id_token ≡ some raw
        → h.provider.verify raw ≡ some id_token
        → (id_token.nonce == state.nonce) ≡ true
        → create h.block w.session_json w.draws_session h.session (session_of tok raw) ≡ ret created
        → begin h state created ≡ ret a
        → Exchanged h w state redirect_url code a
    stored tok raw id_token none t r v same c f = absurd (ground (arith, f))
    stored tok raw id_token (some cookies) t r v same c f =
        let (cfg, is, answered) = begin-dropped h state cookies a f in
        let n = eq_of_== id_token.nonce state.nonce same in
        (tok, raw, id_token, cookies, cfg, t, r, v, n, c, is, answered)

found-Begins :
    (h : Handler) (w : World) (req : Request) (redirect_url : String) (a : Answer)
    (found : Got StateData)
    → get_state_cookie h w req ≡ ret found
    → handle_provider_callback h w req redirect_url ≡ ret a
    → a.status ≡ 302
    → Begins h w req redirect_url a
unfolding handle_provider_callback
found-Begins h w req redirect_url a absent g e moved =
    absurd (ground (arith, (rw (g, handle_provider_callback) at e)))
found-Begins h w req redirect_url a broken g e moved =
    absurd (ground (arith, (rw (g, handle_provider_callback) at e)))
found-Begins h w req redirect_url a (got state) g e moved =
    elim (Option-cases (w.parse_url (req.header_get "X-Forwarded-Uri"))) [
      | inl bad ↦ absurd (cc (rw (g, bad, handle_provider_callback) at e))
      | inr (url, u) ↦ elim (Bool-cases (url.query_get "state" == state.redirect_id)) [
        | inr other ↦ absurd (ground (arith, (rw (g, u, other, handle_provider_callback) at e)))
        | inl same ↦
            let last = rw (g, u, same, handle_provider_callback) at e in
            let (tok, raw, id_token, cookies, cfg, t, r, v, n, c, is, f) =
              exchange_code-Exchanged h w state redirect_url (url.query_get "code") a last moved in
            record {
              state = state;
              url = url;
              tok = tok;
              raw = raw;
              id_token = id_token;
              cookies = cookies;
              cfg = cfg;
              brings_state = get_state_cookie-BringsState h w req state g;
              configured = is;
              has_url = u;
              same_state = eq_of_== (url.query_get "state") state.redirect_id same;
              exchanged = t;
              has_id_token = r;
              verified = v;
              same_nonce = n;
              stored = c;
              answered = f;
            }
      ]
    ]

-- Where the callback answers with a redirection, a cookie of the request keeps an encrypted state, of
-- which the URL brings the redirect ID; the code was exchanged for a token with a verified ID token
-- of the state's nonce; the configuration has a state cookie; and the answer sets the cookies that
-- `Create` makes of this token and one that expires the state's, and sends the user to the URL kept
-- in the state.
pub handle_provider_callback-Begins :
    (h : Handler) (w : World) (req : Request) (redirect_url : String) (a : Answer)
    → handle_provider_callback h w req redirect_url ≡ ret a
    → a.status ≡ 302
    → Begins h w req redirect_url a
unfolding handle_provider_callback
handle_provider_callback-Begins h w req redirect_url a e moved =
    elim (Run-cases (get_state_cookie h w req)) [
      | inl p ↦ absurd (cc (rw (p, handle_provider_callback) at e))
      | inr (found, g) ↦ found-Begins h w req redirect_url a found g e moved
    ]
