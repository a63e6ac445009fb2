-- ===== src/Acp/Oidc/Login/Refuses.antt =====
-- The parts of pkg/acp/oidc/oidc.go that begin a session never answer with status 200.
use hub_agent_kubernetes.Prelude.{
  String, Option, List, [], ◌≡◌, ◌≢◌, string_eq, arith, Run, ret, Bool-cases, inl, inr,
}
use hub_agent_kubernetes.Acp.Oidc.{StateData, HttpCookie}
use hub_agent_kubernetes.Acp.Oidc.Handler.{
  World, Handler, Request, Answer, equal_url, resolve_url, should_redirect, forwarded_url,
}
use hub_agent_kubernetes.Acp.Oidc.Login.{
  redirect_to_provider, clear_state_cookie, begin, exchange_code, handle_provider_callback, log_in,
}

-- The call lets nothing through.
abbrev pub Refuses : Run Answer → Type 0
Refuses m = (a : Answer) → m ≡ ret a → a.status ≢ 200

pub redirect_to_provider-Refuses :
    (h : Handler) (w : World) (req : Request) (url : String) (cookies : List HttpCookie)
    → Refuses (redirect_to_provider h w req url cookies)
unfolding redirect_to_provider
redirect_to_provider-Refuses h w req url cookies a e = ground arith

begin-Refuses :
    (h : Handler) (state : StateData) (o : Option (List HttpCookie)) → Refuses (begin h state o)
unfolding begin clear_state_cookie
begin-Refuses h state o a e = ground arith

exchange_code-Refuses :
    (h : Handler) (w : World) (state : StateData) (url code : String)
    → Refuses (exchange_code h w state url code)
unfolding exchange_code
exchange_code-Refuses h w state url code a e = grind (arith, begin-Refuses)

handle_provider_callback-Refuses :
    (h : Handler) (w : World) (req : Request) (url : String)
    → Refuses (handle_provider_callback h w req url)
unfolding handle_provider_callback
handle_provider_callback-Refuses h w req url a e = grind (arith, exchange_code-Refuses)

pub log_in-Refuses : (h : Handler) (w : World) (req : Request) → Refuses (log_in h w req)
unfolding log_in
log_in-Refuses h w req a e =
    let url = resolve_url req h.cfg.redirect_url in
    elim (Bool-cases (equal_url w (forwarded_url req) url)) [
      | inl back ↦ handle_provider_callback-Refuses h w req url a (rw (back, log_in) at e)
      | inr other ↦ elim (Bool-cases (should_redirect req)) [
        | inl go ↦ redirect_to_provider-Refuses h w req url [] a (rw (other, go, log_in) at e)
        | inr stop ↦ ground (arith, (rw (other, stop, log_in) at e))
      ]
    ]
