-- ===== src/Acp/Oidc/Serving.antt =====
-- pkg/acp/oidc/oidc.go: `ServeHTTP`.
pub mod Authorized
use hub_agent_kubernetes.Prelude.{
  ℕ, zero, suc, ◌%◌, Char, String, Bool, true, false, ◌&&◌, ◌||◌, not, Option, none, some, List, [],
  ◌∷◌, ◌++◌, ◌==◌, string_eq, ltb, if◌then◌else◌, GoMap, default, Run, ret, panic, ◌>>=◌, length,
  map,
}
use hub_agent_kubernetes.Strings.{runes, string_of}
use hub_agent_kubernetes.Expr.{Claims}
use hub_agent_kubernetes.Expr.Predicates.{Predicate}
use hub_agent_kubernetes.Expr.Pluck.{ok, unsupported, pluck_claims}
use hub_agent_kubernetes.Acp.Responses.{Response, rejected, added, accepts}
use hub_agent_kubernetes.Acp.Oidc.{
  Bytes, StateData, SessionData, AuthStateCookie, AuthSession, HttpCookie, seconds, expired,
  default_mode, parse_same_site, Cipher, Json, Got, absent, broken, got, seal, unseal, charset,
}
use hub_agent_kubernetes.Acp.Oidc.Settings.{Config, blank_state_cookie}
use hub_agent_kubernetes.Acp.Oidc.Cookie.{create, delete, get, remove_cookie}
use hub_agent_kubernetes.Acp.Oidc.Handler.{
  Token, IdToken, Params, Provider, Url, World, Handler, Request, Answer, plain, redirect, cat,
  should_redirect, resolve_url, equal_url, forwarded_url,
}
use hub_agent_kubernetes.Acp.Oidc.Login.{
  refresh_enabled, is_expired, redirect_to_provider, session_of, log_in,
}

-- `maybeRefreshSession`; `none` is an error.
unfoldable pub maybe_refresh_session :
    Handler → World → SessionData → Run (Option (SessionData × Bool))
unfolding refresh_enabled is_expired
maybe_refresh_session h w sess = refresh_enabled h.cfg >>= λ refresh.
    if not refresh || not (is_expired w sess)
    then ret (some (sess, false))
    else elim (h.provider.renew sess) [
      | none ↦ ret none
      | some tok ↦ elim tok.id_token [
        | none ↦ ret none
        | some raw ↦ ret (some (session_of tok raw, true))
      ]
    ]

-- The part of `ServeHTTP` from the verification of the ID token on, after the cookies set before.
unfoldable pub authorize : Handler → Request → List HttpCookie → SessionData → Run Answer
unfolding remove_cookie
authorize h req cookies sess = elim (h.provider.verify sess.id_token) [
  | none ↦ ret (plain 400 cookies)
  | some id_token ↦ elim id_token.claims [
    | none ↦ ret (plain 500 cookies)
    | some claims ↦ accepts h.validate_claims claims >>= λ accepted.
        if not accepted
        then ret (plain 403 cookies)
        else pluck_claims h.cfg.forward_headers claims >>= λ plucked. elim plucked [
          | unsupported ↦ ret (plain 500 cookies)
          | ok hdrs ↦ ret (record (plain 200 cookies) {
            forwarded = hdrs;
            authorization = some (cat ("Bearer " ∷ sess.access_token ∷ []));
            cookie_header = some (remove_cookie h.session req.cookies);
          })
        ]
  ]
]

-- The part of `ServeHTTP` after a session was renewed, where the user can be redirected.
unfoldable pub store_renewed : Handler → World → Request → SessionData → Run Answer
unfolding create authorize
store_renewed h w req sess =
    create h.block w.session_json w.draws_session h.session sess >>= λ updated. elim updated [
      | none ↦ ret (plain 500 [])
      | some cookies ↦
          if not (req.header_get "From" == "nginx")
          then ret (redirect (forwarded_url req) cookies)
          else authorize h req cookies sess
    ]

-- The part of `ServeHTTP` for a session that is not expired or may be renewed.
unfoldable pub serve_session : Handler → World → Request → SessionData → Run Answer
unfolding maybe_refresh_session should_redirect store_renewed authorize redirect_to_provider delete
    resolve_url
serve_session h w req sess = maybe_refresh_session h w sess >>= λ renewed. elim renewed [
  | none ↦
      let cookies = delete h.session req.cookies in
      if not (should_redirect req)
      then ret (plain 401 cookies)
      else redirect_to_provider h w req (resolve_url req h.cfg.redirect_url) cookies
  | some (current, refresh_session) ↦
      if refresh_session && should_redirect req
      then store_renewed h w req current
      else authorize h req [] current
]

-- `ServeHTTP`
unfoldable pub serve_http : Handler → World → Request → Run Answer
unfolding delete
serve_http h w req =
    let logout_url = resolve_url req h.cfg.logout_url in
    if equal_url w (forwarded_url req) logout_url && req.header_get "X-Forwarded-Method" == "DELETE"
    then ret (plain 204 (delete h.session req.cookies))
    else get h.block w.session_json h.session req.get_cookie >>= λ found. elim found [
      | broken ↦ ret (plain 401 [])
      | absent ↦ log_in h w req
      | got sess ↦
          if is_expired w sess
          then (refresh_enabled h.cfg >>= λ refresh.
              if not refresh then log_in h w req else serve_session h w req sess)
          else serve_session h w req sess
    ]
