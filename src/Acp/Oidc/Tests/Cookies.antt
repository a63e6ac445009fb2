-- ===== src/Acp/Oidc/Tests/Cookies.antt =====
-- Runs of pkg/acp/oidc/cookie.go.
use hub_agent_kubernetes.Prelude.{
  ◌≤◌, String, some, List, [], ◌∷◌, ◌≡◌, refl, ◌==◌, string_eq, eq_of_==, GoMap, lookup, length,
  arith, All, Bool-cases, inl, inr, ret,
}
use hub_agent_kubernetes.Strings.{has_prefix}
use hub_agent_kubernetes.Acp.Oidc.{Bytes, HttpCookie, got}
use hub_agent_kubernetes.Acp.Oidc.Cookie.{create, get}
use hub_agent_kubernetes.Acp.Oidc.Cookie.Chunks.{held}
use hub_agent_kubernetes.Acp.Oidc.Cookie.Sessions.{
  get-create, get-create_shadowed, after, IsForeign,
}
use hub_agent_kubernetes.Acp.Oidc.Cookie.Fits.{create-Fits, Fits}
use hub_agent_kubernetes.Acp.Oidc.Tests.Toy.{
  toy_cipher, toy_laws, toy_json, toy_back, expiring, zeros, store, draws,
}

abbrev foreign_cookies : GoMap String Bytes
foreign_cookies = ("other", 1 ∷ 2 ∷ []) ∷ []

foreign_cookies-IsForeign : IsForeign store foreign_cookies
unfolding lookup has_prefix
foreign_cookies-IsForeign name mine = elim (Bool-cases ("other" == name)) [
  | inl e ↦ absurd (cc (rw (← eq_of_== "other" name e) at mine))
  | inr e ↦ rw e
]

get-create_example :
    (cookies : List HttpCookie) × (create toy_cipher toy_json draws store (expiring 20)
      ≡ ret (some cookies))
    × (get toy_cipher toy_json store (after foreign_cookies cookies) ≡ ret (got (expiring 20)))
get-create_example =
    get-create toy_cipher toy_laws toy_json toy_back store foreign_cookies draws (expiring 20)
      (zeros 20) foreign_cookies-IsForeign refl (omega arith) (omega arith)

get-create_shadowed_example :
    (first second : List HttpCookie) × (create toy_cipher toy_json draws store (expiring 3)
      ≡ ret (some first))
    × (create toy_cipher toy_json draws store (expiring 20) ≡ ret (some second))
    × (get toy_cipher toy_json store (after (held first) second) ≡ ret (got (expiring 3)))
get-create_shadowed_example =
    get-create_shadowed toy_cipher toy_laws toy_json toy_back store draws draws (expiring 3)
      (expiring 20) (zeros 3) (zeros 20) refl refl (omega arith) (omega arith) (omega arith)
      (omega arith)

create-Fits_example :
    (cookies : List HttpCookie) × (create toy_cipher toy_json draws store (expiring 20)
      ≡ ret (some cookies))
    × (length cookies ≤ 99)
    × All (Fits store) cookies
create-Fits_example =
    create-Fits toy_cipher toy_laws toy_json toy_back store draws (expiring 20) (zeros 20) refl
      (omega arith) (omega arith)
