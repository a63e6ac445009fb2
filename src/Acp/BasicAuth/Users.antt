-- ===== src/Acp/BasicAuth/Users.antt =====
-- Who pkg/acp/basicauth/basic_auth.go lets through.
use hub_agent_kubernetes.Prelude.{
  String, Bool, true, false, Option, none, some, List, [], ◌∷◌, ◌≡◌, ◌≢◌, ◌↔◌, refl, ap, sym, ◌∙◌,
  ◌==◌, string_eq, if◌then◌else◌, GoMap, lookup, insert, default, arith, lookup-insert, Bool-cases,
  inl, inr, Option-cases, eq_of_==, str_iff,
}
use hub_agent_kubernetes.Acp.BasicAuth.{
  Config, Handler, basic_user_parser, get_users, new_handler, secret_basic, Answer, require_auth,
  let_through, serve_http,
}

-- The hash of the last user of that name; a text that is no user is passed over.
abbrev pub last_hash : String → List String → String → String
last_hash name [] hash = hash
last_hash name (user ∷ users) hash = elim (basic_user_parser user) [
  | none ↦ last_hash name users hash
  | some (n, h) ↦ if n == name then last_hash name users h else last_hash name users hash
]

get_users-last_hash :
    (users : List String) (m out : GoMap String String) (name : String)
    → get_users users m ≡ some out
    → default "" (lookup name out) ≡ last_hash name users (default "" (lookup name m))
unfolding get_users
get_users-last_hash [] m out name e = ap (λ o. default "" (lookup name (default m o))) (sym e)
get_users-last_hash (user ∷ users) m out name e = elim (Option-cases (basic_user_parser user)) [
  | inl bad ↦ absurd (cc (rw (bad, get_users) at e))
  | inr (p, good) ↦
      let rest =
        get_users-last_hash users (insert p.0 p.1 m) out name (rw (good, get_users) at e) in
      let look = lookup-insert p.0 name p.1 m in
      elim (Bool-cases (p.0 == name)) [
        | inl same ↦
            rw (good, same, last_hash)
              (rest ∙ ap (λ o. last_hash name users (default "" o)) (rw same at look))
        | inr other ↦
            rw (good, other, last_hash)
              (rest ∙ ap (λ o. last_hash name users (default "" o)) (rw other at look))
      ]
]

abbrev pub is_let_through : Answer → Bool
is_let_through (require_auth realm) = false
is_let_through (let_through username cleared) = true

serve_http-secret :
    (check_secret : String → String → Bool) (h : Handler) (username password : String)
    → (is_let_through (serve_http check_secret h (some (username, password))) ≡ true)
      ↔ ((secret_basic h username ≢ "") × (check_secret password (secret_basic h username) ≡ true))
unfolding serve_http
serve_http-secret check_secret h username password =
    let secret = secret_basic h username in
    elim (Bool-cases (secret == "")) [
      | inl e ↦ rw e (λ p. absurd (cc p), λ q. absurd (q.0 (eq_of_== secret "" e)))
      | inr e ↦ elim (Bool-cases (check_secret password secret)) [
        | inl c ↦
            rw (e, c)
              (λ p. (λ s. absurd (ground (arith, str_iff secret "", e, s)), refl), λ q. refl)
        | inr c ↦ rw (e, c) (λ p. absurd (cc p), λ q. absurd (cc (sym q.1)))
      ]
    ]

-- A handler that `NewHandler` gives lets a user through just where the last configured user of that
-- name has a hash that is not empty and that the password passes; the hashes of the users before,
-- of the same name, count for nothing.
pub serve_http-last_hash :
    (check_secret : String → String → Bool) (cfg : Config) (name : String) (h : Handler)
    (username password : String)
    → new_handler cfg name ≡ some h
    → (is_let_through (serve_http check_secret h (some (username, password))) ≡ true) ↔ (
        (last_hash username cfg.users "" ≢ "")
        × (check_secret password (last_hash username cfg.users "") ≡ true))
unfolding new_handler lookup secret_basic
serve_http-last_hash check_secret cfg name h username password built =
    elim (Option-cases (get_users cfg.users [])) [
      | inl bad ↦ absurd (cc (rw (bad, new_handler) at built))
      | inr (users, good) ↦
          let same : users ≡ h.users =
            ap (λ o. default users (users_of o)) (rw (good, new_handler) at built) in
          let secret : secret_basic h username ≡ last_hash username cfg.users "" =
            ap (λ m. default "" (lookup username m)) (sym same)
            ∙ get_users-last_hash cfg.users [] users username good in
          rw secret at (serve_http-secret check_secret h username password)
    ]
  where
    users_of : Option Handler → Option (GoMap String String)
    users_of none = none
    users_of (some g) = some g.users
