-- ===== src/Acp/Oidc/Serving/Authorized.antt =====
-- Which requests `ServeHTTP` of pkg/acp/oidc/oidc.go lets through.
use hub_agent_kubernetes.Prelude.{
  String, select, refl, ap, Bool, true, false, none, some, List, [], ◌∷◌, not, ◌&&◌, ◌≡◌, ◌∙◌, ◌==◌,
  string_eq, if◌then◌else◌, arith, ret, >>=-eq-ret, Run-cases, Bool-cases, Option-cases, inl, inr,
}
use hub_agent_kubernetes.Expr.{Claims}
use hub_agent_kubernetes.Expr.Pluck.{ok, unsupported, pluck_claims}
use hub_agent_kubernetes.Acp.Responses.{accepts}
use hub_agent_kubernetes.Acp.Oidc.{SessionData, HttpCookie, absent, broken, got}
use hub_agent_kubernetes.Strings.{runes, has_prefix}
use hub_agent_kubernetes.Acp.Oidc.Cookie.{
  CookieSessionStore, RequestCookies, create, delete, get, remove_cookie,
}
use hub_agent_kubernetes.Acp.Oidc.Handler.{
  Token, IdToken, World, Handler, Request, Answer, plain, equal_url, resolve_url, should_redirect,
  forwarded_url, cat,
}
use hub_agent_kubernetes.Acp.Oidc.Login.{
  refresh_enabled, is_expired, redirect_to_provider, session_of, log_in,
}
use hub_agent_kubernetes.Acp.Oidc.Login.Refuses.{redirect_to_provider-Refuses, log_in-Refuses}
use hub_agent_kubernetes.Acp.Oidc.Serving.{
  maybe_refresh_session, authorize, store_renewed, serve_session, serve_http,
}

-- The session of the request's cookies, not expired; or, where sessions are renewed, the one that
-- the provider gives for it, with an ID token.
pub data IsCurrent (h : Handler) (w : World) (req : Request) : SessionData → Type 0 where
  kept :
      (sess : SessionData)
      → get h.block w.session_json h.session req.get_cookie ≡ ret (got sess)
      → is_expired w sess ≡ false
      → IsCurrent h w req sess
  renewed :
      (old : SessionData) (tok : Token) (raw : String) (sess : SessionData)
      → get h.block w.session_json h.session req.get_cookie ≡ ret (got old)
      → refresh_enabled h.cfg ≡ ret true
      → h.provider.renew old ≡ some tok
      → tok.id_token ≡ some raw
      → sess ≡ session_of tok raw
      → IsCurrent h w req sess

-- The ID token of the session is verified, its claims are accepted, and the answer forwards what is
-- plucked of them, with the access token, and without the cookies whose name begins with the
-- session's.
pub record Authorizes (h : Handler) (req : Request) (sess : SessionData) (a : Answer) : Type 0 where
  pub id_token : IdToken
  pub claims : Claims
  pub verified : h.provider.verify sess.id_token ≡ some id_token
  pub has_claims : id_token.claims ≡ some claims
  pub accepted : accepts h.validate_claims claims ≡ ret true
  pub plucked : pluck_claims h.cfg.forward_headers claims ≡ ret (ok a.forwarded)
  pub bearer : a.authorization ≡ some (cat ("Bearer " ∷ sess.access_token ∷ []))
  pub removed :
      a.cookie_header
      ≡ some (select (λ c. not (has_prefix (runes c.0) (runes h.session.name))) req.cookies)

remove_cookie-select :
    (s : CookieSessionStore) (cookies : RequestCookies)
    → remove_cookie s cookies ≡ select (λ c. not (has_prefix (runes c.0) (runes s.name))) cookies
unfolding remove_cookie
remove_cookie-select s cookies = refl

authorize-Authorizes :
    (h : Handler) (req : Request) (cookies : List HttpCookie) (sess : SessionData) (a : Answer)
    → authorize h req cookies sess ≡ ret a
    → a.status ≡ 200
    → Authorizes h req sess a
unfolding authorize
authorize-Authorizes h req cookies sess a e good =
    elim (Option-cases (h.provider.verify sess.id_token)) [
      | inl bad ↦ absurd (ground (arith, (rw (bad, authorize) at e)))
      | inr (id_token, v) ↦ elim (Option-cases id_token.claims) [
        | inl bad ↦ absurd (ground (arith, (rw (v, bad, authorize) at e)))
        | inr (claims, c) ↦ elim (Run-cases (accepts h.validate_claims claims)) [
          | inl p ↦ absurd (cc (rw (v, c, p, authorize) at e))
          | inr (accepted, q) ↦ elim (Bool-cases accepted) [
            | inr refused ↦ absurd (ground (arith, (rw (v, c, q, refused, authorize) at e)))
            | inl agrees ↦ elim (Run-cases (pluck_claims h.cfg.forward_headers claims)) [
              | inl p ↦ absurd (cc (rw (v, c, q, agrees, p, authorize) at e))
              | inr (unsupported, u) ↦
                  absurd (ground (arith, (rw (v, c, q, agrees, u, authorize) at e)))
              | inr (ok hdrs, u) ↦
                  let last = rw (v, c, q, agrees, u, authorize) at e in
                  record {
                    id_token = id_token;
                    claims = claims;
                    verified = v;
                    has_claims = c;
                    accepted = rw agrees at q;
                    plucked = u ∙ cc last;
                    bearer = cc last;
                    removed = cc last ∙ ap some (remove_cookie-select h.session req.cookies);
                  }
            ]
          ]
        ]
      ]
    ]

maybe_refresh_session-IsCurrent :
    (h : Handler) (w : World) (req : Request) (sess sess' : SessionData) (renewed' : Bool)
    → get h.block w.session_json h.session req.get_cookie ≡ ret (got sess)
    → maybe_refresh_session h w sess ≡ ret (some (sess', renewed'))
    → (is_expired w sess ≡ true → refresh_enabled h.cfg ≡ ret true)
    → IsCurrent h w req sess'
unfolding maybe_refresh_session
maybe_refresh_session-IsCurrent h w req sess sess' renewed' g e allowed =
    elim (Run-cases (refresh_enabled h.cfg)) [
      | inl p ↦ absurd (cc (rw (p, maybe_refresh_session) at e))
      | inr (refresh, r) ↦ elim (Bool-cases (is_expired w sess)) [
        | inr fresh ↦
            let same : sess ≡ sess' = ground (arith, (rw (r, fresh, maybe_refresh_session) at e)) in
            rw (← same) (kept sess g fresh)
        | inl old ↦
            let on : refresh ≡ true = cc (allowed old) in
            elim (Option-cases (h.provider.renew sess)) [
              | inl bad ↦ absurd (cc (rw (r, on, old, bad, maybe_refresh_session) at e))
              | inr (tok, t) ↦ elim (Option-cases tok.id_token) [
                | inl bad ↦ absurd (cc (rw (r, on, old, t, bad, maybe_refresh_session) at e))
                | inr (raw, i) ↦
                    let last = rw (r, on, old, t, i, maybe_refresh_session) at e in
                    renewed sess tok raw sess' g (allowed old) t i (cc last)
              ]
            ]
      ]
    ]

store_renewed-Authorizes :
    (h : Handler) (w : World) (req : Request) (sess : SessionData) (a : Answer)
    → store_renewed h w req sess ≡ ret a
    → a.status ≡ 200
    → Authorizes h req sess a
unfolding store_renewed
store_renewed-Authorizes h w req sess a e good =
    elim (Run-cases (create h.block w.session_json w.draws_session h.session sess)) [
      | inl p ↦ absurd (cc (rw (p, store_renewed) at e))
      | inr (none, c) ↦ absurd (ground (arith, (rw (c, store_renewed) at e)))
      | inr (some cookies, c) ↦ elim (Bool-cases (req.header_get "From" == "nginx")) [
        | inl nginx ↦
            authorize-Authorizes h req cookies sess a (rw (c, nginx, store_renewed) at e) good
        | inr other ↦ absurd (ground (arith, (rw (c, other, store_renewed) at e)))
      ]
    ]

-- A session of its own lets the request through.
abbrev pub LetsThrough : Handler → World → Request → Answer → Type 0
LetsThrough h w req a = (sess : SessionData) × IsCurrent h w req sess × Authorizes h req sess a

serve_session-LetsThrough :
    (h : Handler) (w : World) (req : Request) (sess : SessionData) (a : Answer)
    → get h.block w.session_json h.session req.get_cookie ≡ ret (got sess)
    → (is_expired w sess ≡ true → refresh_enabled h.cfg ≡ ret true)
    → serve_session h w req sess ≡ ret a
    → a.status ≡ 200
    → LetsThrough h w req a
unfolding serve_session
serve_session-LetsThrough h w req sess a g allowed e good =
    elim (Run-cases (maybe_refresh_session h w sess)) [
      | inl p ↦ absurd (cc (rw (p, serve_session) at e))
      | inr (none, m) ↦ absurd (refused (rw (m, serve_session) at e))
      | inr (some (sess', renewed'), m) ↦ (
        sess',
        maybe_refresh_session-IsCurrent h w req sess sess' renewed' g m allowed,
        elim (Bool-cases (renewed' && should_redirect req)) [
          | inl stores ↦
              store_renewed-Authorizes h w req sess' a (rw (m, stores, serve_session) at e) good
          | inr stays ↦
              authorize-Authorizes h req [] sess' a (rw (m, stays, serve_session) at e) good
        ],
      )
    ]
  where
    refused :
        (if not (should_redirect req)
            then ret (plain 401 (delete h.session req.cookies))
            else redirect_to_provider h w req
                (resolve_url req h.cfg.redirect_url)
                (delete h.session req.cookies))
          ≡ ret a
        → ⊥
    refused e' = elim (Bool-cases (should_redirect req)) [
      | inl r ↦
          redirect_to_provider-Refuses h w req (resolve_url req h.cfg.redirect_url)
            (delete h.session req.cookies) a (rw r at e') good
      | inr r ↦ ground (arith, (rw r at e'))
    ]

-- A request is let through, with status 200, only with a session that its cookies keep and that is
-- not expired, or that the provider renewed with an ID token where sessions are renewed; whose ID
-- token is verified and has claims that the predicate accepts; and the answer forwards what is
-- plucked of these claims and the access token, and drops the cookies whose name begins with the
-- name of the session's.
pub serve_http-LetsThrough :
    (h : Handler) (w : World) (req : Request) (a : Answer)
    → serve_http h w req ≡ ret a
    → a.status ≡ 200
    → LetsThrough h w req a
unfolding serve_http
serve_http-LetsThrough h w req a e good =
    let logging_out =
      equal_url w (forwarded_url req) (resolve_url req h.cfg.logout_url)
      && req.header_get "X-Forwarded-Method" == "DELETE" in
    elim (Bool-cases logging_out) [
      | inl out ↦ absurd (ground (arith, (rw (out, serve_http) at e)))
      | inr stays ↦ elim (Run-cases (get h.block w.session_json h.session req.get_cookie)) [
        | inl p ↦ absurd (cc (rw (stays, p, serve_http) at e))
        | inr (broken, g) ↦ absurd (ground (arith, (rw (stays, g, serve_http) at e)))
        | inr (absent, g) ↦ absurd (log_in-Refuses h w req a (rw (stays, g, serve_http) at e) good)
        | inr (got sess, g) ↦ elim (Bool-cases (is_expired w sess)) [
          | inr fresh ↦
              serve_session-LetsThrough h w req sess a g (λ old. cc)
                (rw (stays, g, fresh, serve_http) at e) good
          | inl old ↦
              let (refresh, r, f) =
                >>=-eq-ret (refresh_enabled h.cfg)
                  (λ (refresh : Bool).
                    if not refresh then log_in h w req else serve_session h w req sess)
                  (rw (stays, g, old, serve_http) at e) in
              expired_session sess refresh g r f
        ]
      ]
    ]
  where
    expired_session :
        (sess : SessionData) (refresh : Bool)
        → get h.block w.session_json h.session req.get_cookie ≡ ret (got sess)
        → refresh_enabled h.cfg ≡ ret refresh
        → (if not refresh then log_in h w req else serve_session h w req sess) ≡ ret a
        → LetsThrough h w req a
    expired_session sess false g r f = absurd (log_in-Refuses h w req a f good)
    expired_session sess true g r f = serve_session-LetsThrough h w req sess a g (λ _. r) f good
