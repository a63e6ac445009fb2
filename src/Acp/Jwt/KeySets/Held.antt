-- ===== src/Acp/Jwt/KeySets/Held.antt =====
-- Which keys the key sets of pkg/acp/jwt/jwk.go answer with: those that they hold at an instant.
use hub_agent_kubernetes.Prelude.{
  ℕ, ◌+◌, String, false, Option, none, some, List, [], ◌∷◌, ◌≡◌, ap, ◌∙◌, ◌==◌, string_eq, nat_eq,
  ltb, eq_of_==, default, arith, Run, ret, panic, Bool-cases, Option-cases, inl, inr,
}
use hub_agent_kubernetes.Acp.Jwt.{PublicKey, Jwk}
use hub_agent_kubernetes.Acp.Jwt.KeySets.{
  key_of, file_key, remote_key, Searched, failed, searched, FileKeySet, FileState, reload,
  update_file_key_set, RemoteKeySet, KeysResponse, fetch_keys, update_remote_key_set,
}

-- A key of the list has this ID.
pub data InKeys : List Jwk → String → PublicKey → Type 0 where
  here : {j : Jwk} {keys : List Jwk} → InKeys (j ∷ keys) j.key_id j.key
  below :
      {j : Jwk} {keys : List Jwk} {id : String} {k : PublicKey}
      → InKeys keys id k
      → InKeys (j ∷ keys) id k

-- The keys of a key set in a file: those read before, when the last check is recent or the file was
-- not modified since, or those that the file holds now.
pub data FileHolds (found : Option FileState) (now : ℕ) (ks : FileKeySet) : List Jwk → Type 0 where
  recent :
      {keys : List Jwk}
      → ltb (ks.last_check + 5000000000) now ≡ false
      → ks.keys ≡ some keys
      → FileHolds found now ks keys
  unmodified :
      {keys : List Jwk} {state : FileState}
      → found ≡ some state
      → ks.last_mod_time ≡ state.mod_time
      → ks.keys ≡ some keys
      → FileHolds found now ks keys
  modified :
      {keys : List Jwk} {state : FileState}
      → found ≡ some state
      → state.content ≡ some keys
      → FileHolds found now ks keys

-- The keys of a key set at a URL: those fetched before, up to their expiry, or those with which its
-- server answers now.
pub data UrlHolds (server : String → Option KeysResponse) (now : ℕ) (ks : RemoteKeySet)
    : List Jwk → Type 0 where
  unexpired : ltb ks.expiry now ≡ false → UrlHolds server now ks ks.keys
  fetched :
      {keys : List Jwk} {resp : KeysResponse}
      → server ks.url ≡ some resp
      → resp.status ≡ 200
      → resp.body ≡ some keys
      → UrlHolds server now ks keys

pub key_of-InKeys :
    (keys : List Jwk) (id : String) (k : PublicKey) → key_of id keys ≡ some k → InKeys keys id k
unfolding key_of
key_of-InKeys [] id k e = absurd (cc e)
key_of-InKeys (j ∷ keys) id k e = elim (Bool-cases (j.key_id == id)) [
  | inl same ↦
      let p : some j.key ≡ some k = rw (same, key_of) at e in
      let q : j.key ≡ k = cc p in rw (← q, ← eq_of_== j.key_id id same) here
  | inr other ↦ below (key_of-InKeys keys id k (rw (other, key_of) at e))
]

update_remote_key_set-UrlHolds :
    (server : String → Option KeysResponse) (now : ℕ) (ks out : RemoteKeySet)
    → update_remote_key_set server now ks ≡ some out
    → UrlHolds server now ks out.keys
unfolding update_remote_key_set fetch_keys
update_remote_key_set-UrlHolds server now ks out e = elim (Bool-cases (ltb ks.expiry now)) [
  | inr kept ↦
      let p : ks ≡ out = cc (rw (kept, update_remote_key_set) at e) in rw (← p) (unexpired kept)
  | inl due ↦ elim (Option-cases (server ks.url)) [
    | inl bad ↦ absurd (cc (rw (due, bad, update_remote_key_set) at e))
    | inr (resp, answered) ↦ elim (Bool-cases (resp.status == 200)) [
      | inr bad ↦ absurd (cc (rw (due, answered, bad, update_remote_key_set) at e))
      | inl good ↦ elim (Option-cases resp.body) [
        | inl bad ↦ absurd (cc (rw (due, answered, good, bad, update_remote_key_set) at e))
        | inr (keys, body) ↦
            let p : keys ≡ out.keys =
              ap (λ (o : Option RemoteKeySet). (default ks o).keys)
                (rw (due, answered, good, body, update_remote_key_set) at e) in
            rw (← p) (fetched answered (eq_of_== resp.status 200 good) body)
      ]
    ]
  ]
]

update_file_key_set-FileHolds :
    (found : Option FileState) (now : ℕ) (ks out : FileKeySet) (keys : List Jwk)
    → update_file_key_set found now ks ≡ some out
    → out.keys ≡ some keys
    → FileHolds found now ks keys
unfolding update_file_key_set reload
update_file_key_set-FileHolds found now ks out keys e has =
    elim (Bool-cases (ltb (ks.last_check + 5000000000) now)) [
      | inr kept ↦
          let p : ks ≡ out = cc (rw (kept, update_file_key_set) at e) in recent kept (rw p has)
      | inl due ↦
          let late : ltb now (ks.last_check + 5000000000) ≡ false = ground arith in
          elim (Option-cases found) [
            | inl bad ↦ absurd (cc (rw (due, late, bad, update_file_key_set) at e))
            | inr (state, is) ↦ elim (Bool-cases (ks.last_mod_time == state.mod_time)) [
              | inl same ↦
                  let p : ks.keys ≡ out.keys =
                    ap (λ (o : Option FileKeySet). (default ks o).keys)
                      (rw (due, late, is, same, update_file_key_set) at e) in
                  unmodified is (eq_of_== ks.last_mod_time state.mod_time same) (p ∙ has)
              | inr other ↦ elim (Option-cases state.content) [
                | inl bad ↦ absurd (cc (rw (due, late, is, other, bad, update_file_key_set) at e))
                | inr (read, body) ↦
                    let p : some read ≡ out.keys =
                      ap (λ (o : Option FileKeySet). (default ks o).keys)
                        (rw (due, late, is, other, body, update_file_key_set) at e) in
                    modified is (body ∙ p ∙ has)
              ]
            ]
          ]
    ]

abbrev key_among : Searched → Option PublicKey
key_among failed = none
key_among (searched o) = o

abbrev pub answer_in : Searched → Run Searched → Searched
answer_in d panic = d
answer_in d (ret s) = s

abbrev pub key_in : Run Searched → Option PublicKey
key_in r = key_among (answer_in failed r)

pub file_key-InKeys :
    (found : Option FileState) (now : ℕ) (id : String) (ks : FileKeySet) (k : PublicKey)
    → (file_key found now id ks).1 ≡ ret (searched (some k))
    → (keys : List Jwk) × FileHolds found now ks keys × InKeys keys id k
unfolding file_key
file_key-InKeys found now id ks k e = elim (Option-cases (update_file_key_set found now ks)) [
  | inl bad ↦ absurd (cc (rw (bad, file_key) at e))
  | inr (out, done) ↦ elim (Option-cases out.keys) [
    | inl unread ↦ absurd (cc (rw (done, unread, file_key) at e))
    | inr (keys, has) ↦
        let p : key_of id keys ≡ some k = ap key_in (rw (done, has, file_key) at e) in
        (
          keys,
          update_file_key_set-FileHolds found now ks out keys done has,
          key_of-InKeys keys id k p,
        )
  ]
]

pub remote_key-InKeys :
    (server : String → Option KeysResponse) (now : ℕ) (id : String) (ks : RemoteKeySet)
    (k : PublicKey)
    → (remote_key server now id ks).1 ≡ searched (some k)
    → (keys : List Jwk) × UrlHolds server now ks keys × InKeys keys id k
unfolding remote_key
remote_key-InKeys server now id ks k e = elim (Option-cases (update_remote_key_set server now ks)) [
  | inl bad ↦ absurd (cc (rw (bad, remote_key) at e))
  | inr (out, done) ↦
      let p : key_of id out.keys ≡ some k = ap key_among (rw (done, remote_key) at e) in
      (
        out.keys,
        update_remote_key_set-UrlHolds server now ks out done,
        key_of-InKeys out.keys id k p,
      )
]
