-- ===== src/Acp/Jwt/KeySets/Fresh.antt =====
-- How old the keys are that a `FileKeySet` of pkg/acp/jwt/jwk.go answers from. The clock stands still
-- during a call.
use hub_agent_kubernetes.Prelude.{
  ℕ, ◌+◌, ◌≤◌, ◌<◌, String, Option, none, some, List, ◌≡◌, ◌≢◌, refl, ap, sym, ◌∙◌, ◌⊎◌, inl, inr,
  ◌==◌, nat_eq, eq_of_==, ltb, Run, ret, arith, Bool-cases, Option-cases, default,
}
use hub_agent_kubernetes.Acp.Jwt.{Jwk}
use hub_agent_kubernetes.Acp.Jwt.KeySets.{
  key_of, Searched, failed, searched, check_interval, FileKeySet, new_file_key_set, FileState,
  file_expired, reload, update_file_key_set, in_keys, file_key,
}

-- The file over time: its modification time is never the zero time, and tells its contents apart.
pub record IsStamped (files : ℕ → Option FileState) : Type 0 where
  pub nonzero : (t : ℕ) (f : FileState) → files t ≡ some f → f.mod_time ≢ 0
  pub tells :
      (t u : ℕ) (f g : FileState)
      → files t ≡ some f
      → files u ≡ some g
      → f.mod_time ≡ g.mod_time
      → f.content ≡ g.content

-- The key sets that calls of `Key`, one after the other, lead to from a new one, with the instant of
-- the last call.
pub data Served (files : ℕ → Option FileState) : ℕ → FileKeySet → Type 0 where
  fresh : (path : String) (t : ℕ) → check_interval < t → Served files t (new_file_key_set path)
  call :
      {t now : ℕ} {k : FileKeySet} (id : String)
      → Served files t k
      → t ≤ now
      → Served files now (file_key (files now) now id k).0

-- The keys are what the file held at the last check.
record Matches (files : ℕ → Option FileState) (k : FileKeySet) : Type 0 where
  f : FileState
  keys : List Jwk
  at_check : files k.last_check ≡ some f
  decoded : f.content ≡ some keys
  kept : k.keys ≡ some keys
  stamp : f.mod_time ≡ k.last_mod_time

abbrev IsUnread : FileKeySet → Type 0
IsUnread k = (k.last_check ≡ 0) × (k.last_mod_time ≡ 0)

record IsGood (files : ℕ → Option FileState) (t : ℕ) (k : FileKeySet) : Type 0 where
  past : k.last_check ≤ t
  late : check_interval < t
  read : IsUnread k ⊎ Matches files k

some_inj {ℓ} : {A : Type ℓ} {a b : A} → some a ≡ some b → a ≡ b
some_inj {a} e = ap (default a) e

-- A file that has not changed since the last check.
unchanged-Matches :
    (files : ℕ → Option FileState) (now : ℕ) (k : FileKeySet) (f : FileState)
    → IsStamped files
    → IsUnread k ⊎ Matches files k
    → files now ≡ some f
    → k.last_mod_time ≡ f.mod_time
    → Matches files (record k { last_check = now })
unchanged-Matches files now k f stamped (inl unread) at_now same =
    absurd (stamped.nonzero now f at_now (sym same ∙ unread.1))
unchanged-Matches files now k f stamped (inr m) at_now same = record {
  f = f;
  keys = m.keys;
  at_check = at_now;
  decoded =
      stamped.tells now k.last_check f m.f at_now m.at_check (sym same ∙ sym m.stamp) ∙ m.decoded;
  kept = m.kept;
  stamp = sym same;
}

reload-Matches :
    (files : ℕ → Option FileState) (now : ℕ) (k k' : FileKeySet)
    → IsStamped files
    → IsUnread k ⊎ Matches files k
    → reload (files now) now k ≡ some k'
    → (k'.last_check ≡ now) × Matches files k'
unfolding reload
reload-Matches files now k k' stamped read e = elim (Option-cases (files now)) [
  | inl gone ↦ absurd (cc (rw (gone, reload) at e))
  | inr (f, at_now) ↦ elim (Bool-cases (k.last_mod_time == f.mod_time)) [
    | inl same ↦
        let p : record k { last_check = now } ≡ k' = some_inj (rw (at_now, same, reload) at e) in
        rw (← p) (
          refl,
          unchanged-Matches files now k f stamped read at_now
              (eq_of_== k.last_mod_time f.mod_time same),
        )
    | inr changed ↦ elim (Option-cases f.content) [
      | inl bad ↦ absurd (cc (rw (at_now, changed, bad, reload) at e))
      | inr (keys, decoded) ↦
          let p : record k { keys = some keys; last_mod_time = f.mod_time; last_check = now } ≡ k' =
            some_inj (rw (at_now, changed, decoded, reload) at e) in
          rw (← p) (
            refl,
            record {
              f = f;
              keys = keys;
              at_check = at_now;
              decoded = decoded;
              kept = refl;
              stamp = refl;
            },
          )
    ]
  ]
]

-- After a call that is no error, the keys are those of a check at most an interval ago.
update-Matches :
    (files : ℕ → Option FileState) (t now : ℕ) (k k' : FileKeySet)
    → IsStamped files
    → IsGood files t k
    → t ≤ now
    → update_file_key_set (files now) now k ≡ some k'
    → (k'.last_check ≤ now) × (now ≤ k'.last_check + check_interval) × Matches files k'
unfolding update_file_key_set
update-Matches files t now k k' stamped good le e = elim (Bool-cases (file_expired k now)) [
  | inr young ↦
      let same : k ≡ k' = some_inj (rw (young, update_file_key_set) at e) in
      let within : now ≤ k.last_check + check_interval = ground arith in
      rw (← same) (
        omega (arith, good.past),
        within,
        elim good.read [
          | inl unread ↦ absurd (omega (arith, good.late, unread.0, within, le))
          | inr m ↦ m
        ],
      )
  | inl old ↦ elim (Bool-cases (ltb now (k.last_check + check_interval))) [
    | inl early ↦ absurd (ground arith)
    | inr late ↦
        let (c, m) =
          reload-Matches files now k k' stamped good.read
            (rw (old, late, update_file_key_set) at e) in
        (omega (arith, c), omega (arith, c), m)
  ]
]

file_key-IsGood :
    (files : ℕ → Option FileState) (t now : ℕ) (k : FileKeySet) (id : String)
    → IsStamped files
    → IsGood files t k
    → t ≤ now
    → IsGood files now (file_key (files now) now id k).0
unfolding file_key
file_key-IsGood files t now k id stamped good le =
    elim (Option-cases (update_file_key_set (files now) now k)) [
      | inl e ↦
          rw (e, file_key)
            (record {
              past = omega (arith, good.past);
              late = omega (arith, good.late);
              read = good.read;
            })
      | inr (k', e) ↦
          let (past, within, m) = update-Matches files t now k k' stamped good le e in
          rw (e, file_key) (record { past = past; late = omega (arith, good.late); read = inr m })
    ]

Served-IsGood :
    {files : ℕ → Option FileState} {t : ℕ} {k : FileKeySet}
    → IsStamped files
    → Served files t k
    → IsGood files t k
Served-IsGood stamped (fresh path t late) = record {
  past = omega arith;
  late = late;
  read = inl (refl, refl);
}
Served-IsGood {files} stamped (call {t} {now} {k} id served le) =
    file_key-IsGood files t now k id stamped (Served-IsGood stamped served) le

-- The answer of a key set that reads the file anew at an instant of the last interval.
pub record IsRecent (files : ℕ → Option FileState) (now : ℕ) (id : String) (answer : Run Searched)
    : Type 0 where
  pub instant : ℕ
  pub state : FileState
  pub keys : List Jwk
  pub past : instant ≤ now
  pub within : now ≤ instant + check_interval
  pub held : files instant ≡ some state
  pub decoded : state.content ≡ some keys
  pub answered : answer ≡ ret (searched (key_of id keys))

-- There is no file now, or its content does not decode.
abbrev pub IsBroken : Option FileState → Type 0
IsBroken file = (f : FileState) → file ≡ some f → f.content ≡ none

reload-IsBroken :
    (file : Option FileState) (now : ℕ) (k : FileKeySet) → reload file now k ≡ none → IsBroken file
unfolding reload
reload-IsBroken none now k e f h = cc
reload-IsBroken (some g) now k e f h = elim (Bool-cases (k.last_mod_time == g.mod_time)) [
  | inl same ↦ absurd (cc (rw (same, reload) at e))
  | inr changed ↦ elim (Option-cases g.content) [
    | inl bad ↦ rw (some_inj h) at bad
    | inr (keys, decoded) ↦ absurd (cc (rw (changed, decoded, reload) at e))
  ]
]

update-IsBroken :
    (file : Option FileState) (now : ℕ) (k : FileKeySet)
    → update_file_key_set file now k ≡ none
    → IsBroken file
unfolding update_file_key_set
update-IsBroken file now k e = elim (Bool-cases (file_expired k now)) [
  | inr young ↦ absurd (cc (rw (young, update_file_key_set) at e))
  | inl old ↦ elim (Bool-cases (ltb now (k.last_check + check_interval))) [
    | inl early ↦ absurd (cc (rw (old, early, update_file_key_set) at e))
    | inr late ↦ reload-IsBroken file now k (rw (old, late, update_file_key_set) at e)
  ]
]

-- Whatever calls came before, `Key` does not panic: it answers as a search in the keys that the file
-- held at an instant at most five seconds ago, or it is an error, and then there is no file now or
-- its content does not decode. The file's modification time is never the zero time and tells its
-- contents apart.
pub file_key-IsRecent :
    (files : ℕ → Option FileState) (t now : ℕ) (k : FileKeySet) (id : String)
    → IsStamped files
    → Served files t k
    → t ≤ now
    → (((file_key (files now) now id k).1 ≡ ret failed) × IsBroken (files now))
      ⊎ IsRecent files now id (file_key (files now) now id k).1
unfolding file_key
file_key-IsRecent files t now k id stamped served le =
    let good = Served-IsGood stamped served in
    elim (Option-cases (update_file_key_set (files now) now k)) [
      | inl e ↦ inl (rw (e, file_key), update-IsBroken (files now) now k e)
      | inr (k', e) ↦
          let (past, within, m) = update-Matches files t now k k' stamped good le e in
          inr (record {
            instant = k'.last_check;
            state = m.f;
            keys = m.keys;
            past = past;
            within = within;
            held = m.at_check;
            decoded = m.decoded;
            answered = rw (e, file_key) (rw (m.kept, in_keys));
          })
    ]
