-- ===== src/Acp/Jwt/KeySets.antt =====
-- pkg/acp/jwt/jwk.go: sets of keys given as content, in a file, and at a URL.
pub mod Fresh
pub mod Held
use hub_agent_kubernetes.Prelude.{
  ℕ, ◌+◌, String, Bool, true, false, not, Option, none, some, List, [], ◌∷◌, ◌==◌, string_eq,
  nat_eq, ltb, if◌then◌else◌, Run, ret, panic,
}
use hub_agent_kubernetes.Acp.Jwt.{PublicKey, Jwk}

-- The first key of `jose.JSONWebKeySet.Key`, as `ContentKeySet.Key` takes it; `none` is nil.
unfoldable pub key_of : String → List Jwk → Option PublicKey
key_of id [] = none
key_of id (k ∷ keys) = if k.key_id == id then some k.key else key_of id keys

-- What a key set answers: an error, or a key that may be nil.
pub data Searched : Type 0 where
  failed : Searched
  searched : Option PublicKey → Searched

-- Instants are nanoseconds, and 0 is the zero time.
abbrev pub check_interval : ℕ
check_interval = 5000000000

-- `keys` is the pointer `keySet`.
pub record FileKeySet : Type 0 where
  pub path : String
  pub last_mod_time : ℕ
  pub last_check : ℕ
  pub keys : Option (List Jwk)

abbrev pub new_file_key_set : String → FileKeySet
new_file_key_set path = record { path = path; last_mod_time = 0; last_check = 0; keys = none }

-- A file at an instant: its modification time, and what its content decodes to, if it does.
pub record FileState : Type 0 where
  pub mod_time : ℕ
  pub content : Option (List Jwk)

-- `isExpired`
abbrev pub file_expired : FileKeySet → ℕ → Bool
file_expired k now = ltb (k.last_check + check_interval) now

-- The part of `updateKeySet` that looks at the file; `none` is an error. `file` is what `os.Stat`
-- and `os.Open` find.
unfoldable pub reload : Option FileState → ℕ → FileKeySet → Option FileKeySet
reload none now k = none
reload (some file) now k =
    if k.last_mod_time == file.mod_time
    then some (record k { last_check = now })
    else elim file.content [
      | none ↦ none
      | some keys ↦
          some (record k { keys = some keys; last_mod_time = file.mod_time; last_check = now })
    ]

-- `updateKeySet` at an instant.
unfoldable pub update_file_key_set : Option FileState → ℕ → FileKeySet → Option FileKeySet
unfolding reload
update_file_key_set file now k =
    if not (file_expired k now)
    then some k
    else if ltb now (k.last_check + check_interval)
    then some k
    else reload file now k

abbrev pub in_keys : String → Option (List Jwk) → Run Searched
in_keys id none = panic
in_keys id (some keys) = ret (searched (key_of id keys))

-- `FileKeySet.Key`. A key set that was never read is nil, and a search in it panics.
unfoldable pub file_key : Option FileState → ℕ → String → FileKeySet → FileKeySet × Run Searched
unfolding update_file_key_set key_of
file_key file now id k = elim (update_file_key_set file now k) [
  | none ↦ (k, ret failed)
  | some k' ↦ (k', in_keys id k'.keys)
]

-- `url`, `keys` and `expiry`; callers that come while keys are fetched wait for the same answer.
pub record RemoteKeySet : Type 0 where
  pub url : String
  pub keys : List Jwk
  pub expiry : ℕ

abbrev pub new_remote_key_set : String → RemoteKeySet
new_remote_key_set url = record { url = url; keys = []; expiry = 0 }

-- An answer of a server: its status, the keys that its body decodes to, and the expiration of
-- `cachecontrol.CachableResponse`.
pub record KeysResponse : Type 0 where
  pub status : ℕ
  pub body : Option (List Jwk)
  pub cachable_until : Option ℕ

abbrev pub later : ℕ → Option ℕ → ℕ
later now none = now
later now (some e) = if ltb now e then e else now

-- `fetchKeys`: the keys with their expiry; `none` is an error.
unfoldable pub fetch_keys : Option KeysResponse → ℕ → Option (List Jwk × ℕ)
fetch_keys none now = none
fetch_keys (some resp) now =
    if not (resp.status == 200)
    then none
    else elim resp.body [ none ↦ none | some keys ↦ some (keys, later now resp.cachable_until) ]

-- `updateKeySet`; `none` is an error, which leaves the keys as they are.
unfoldable pub update_remote_key_set :
    (String → Option KeysResponse) → ℕ → RemoteKeySet → Option RemoteKeySet
unfolding fetch_keys
update_remote_key_set server now s =
    if not (ltb s.expiry now) then some s else elim (fetch_keys (server s.url) now) [
      | none ↦ none
      | some (keys, expiry) ↦ some (record s { keys = keys; expiry = expiry })
    ]

-- `RemoteKeySet.Key`
unfoldable pub remote_key :
    (String → Option KeysResponse) → ℕ → String → RemoteKeySet → RemoteKeySet × Searched
unfolding update_remote_key_set key_of
remote_key server now id s = elim (update_remote_key_set server now s) [
  | none ↦ (s, failed)
  | some s' ↦ (s', searched (key_of id s'.keys))
]

-- The interface `KeySet`, by its implementations.
pub data KeySet : Type 0 where
  content : List Jwk → KeySet
  file : FileKeySet → KeySet
  remote : RemoteKeySet → KeySet
