-- ===== src/Acp/BasicAuth.antt =====
-- pkg/acp/basicauth/basic_auth.go: users and their password hashes.
pub mod Users
use hub_agent_kubernetes.Prelude.{
  ℕ, String, Bool, true, false, ◌&&◌, ◌||◌, not, Option, none, some, List, [], ◌∷◌, Eq, ◌==◌,
  string_eq, if◌then◌else◌, GoMap, lookup, insert, default, map,
}
use hub_agent_kubernetes.Strings
use hub_agent_kubernetes.Strings.{runes, string_of}

pub record Config : Type 0 where
  pub users : List String
  pub realm : String
  pub strip_authorization_header : Bool
  pub forward_username_header : String

-- `auth` of the source is the realm, and `secret_basic` as its `Secrets`.
pub record Handler : Type 0 where
  pub realm : String
  pub users : GoMap String String
  pub forward_username : String
  pub strip_authorization : Bool
  pub name : String

-- `basicUserParser`; `none` is an error.
unfoldable pub basic_user_parser : String → Option (String × String)
unfolding Strings.split
basic_user_parser user = elim (map string_of (Strings.split (runes user) (runes ":"))) [
  | name ∷ hash ∷ [] ↦ some (name, hash)
  | _ ↦ none
]

-- The loop of `getUsers`, with the users so far.
unfoldable pub get_users : List String → GoMap String String → Option (GoMap String String)
unfolding basic_user_parser
get_users [] user_map = some user_map
get_users (user ∷ users) user_map = elim (basic_user_parser user) [
  | none ↦ none
  | some (name, hash) ↦ get_users users (insert name hash user_map)
]

-- `NewHandler`; `none` is an error.
unfoldable pub new_handler : Config → String → Option Handler
unfolding get_users
new_handler cfg name = elim (get_users cfg.users []) [
  | none ↦ none
  | some users ↦ some (record {
    realm = (if cfg.realm == "" then "hub" else cfg.realm);
    users = users;
    forward_username = cfg.forward_username_header;
    strip_authorization = cfg.strip_authorization_header;
    name = name;
  })
]

-- `secretBasic`
unfoldable pub secret_basic : Handler → String → String
secret_basic h user = default "" (lookup user h.users)

-- What `ServeHTTP` answers: `RequireAuth` of goauth, or status 200 with the headers that it sets
-- and adds.
pub data Answer : Type 0 where
  require_auth : (realm : String) → Answer
  let_through : (username : Option (String × String)) → (cleared : Bool) → Answer

-- `ServeHTTP`. `credentials` is what `req.BasicAuth` gives, and `check_secret` is that of goauth.
unfoldable pub serve_http : (String → String → Bool) → Handler → Option (String × String) → Answer
unfolding secret_basic
serve_http check_secret h none = require_auth h.realm
serve_http check_secret h (some (username, password)) =
    let secret = secret_basic h username in
    if secret == "" || not (check_secret password secret)
    then require_auth h.realm
    else let_through
        (if not (h.forward_username == "") then some (h.forward_username, username) else none)
        h.strip_authorization
