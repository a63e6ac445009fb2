-- ===== src/Expr/Split.antt =====
-- `split` of pkg/acp/expr/parser.go: escaping is undone, and where the byte length matters.
use hub_agent_kubernetes.Prelude.{
  ℕ, ◌+◌, ◌≤◌, ◌<◌, Char, code, String, ◌≡◌, ◌≢◌, refl, sym, ap, ◌∙◌, Bool, true, false, ◌⊎◌, inl,
  inr, List, [], ◌∷◌, ◌++◌, map, append-nil, append_assoc, arith, ret, panic, ret_of_ne-panic,
  length, nat_beq, if◌then◌else◌, ◌||◌, Bool-cases, All, length-append,
}
use hub_agent_kubernetes.Strings.{runes, string_of, byte_len, runes-string_of}
use hub_agent_kubernetes.Expr.{backslash, dot, split_from, split}

-- Whether `escape` puts a backslash before the character.
pub is_special : Char → Bool
is_special c = nat_beq (code c) b'\\' || nat_beq (code c) b'.'

-- A backslash before each `.` and each `\` of a name.
abbrev pub escape : List Char → List Char
escape [] = []
escape (c ∷ s) = if is_special c then backslash ∷ c ∷ escape s else c ∷ escape s

-- The claim name that addresses a path of names.
abbrev pub address : List Char → List (List Char) → List Char
address p [] = escape p
address p (q ∷ r) = escape p ++ dot ∷ address q r

pub length-le-byte_len : (s : List Char) → length s ≤ byte_len s
length-le-byte_len [] = omega arith
length-le-byte_len (c ∷ s) = ground (arith, length-le-byte_len s)

byte_len-append : (s t : List Char) → byte_len (s ++ t) ≡ byte_len s + byte_len t
byte_len-append [] t = omega arith
byte_len-append (c ∷ s) t = omega (arith, byte_len-append s t)

module _ (sep : Char) (size idx : ℕ) (parts : List String) (current : List Char) where
  step_plain :
      (r : Char) (rest : List Char)
      → code r ≢ b'\\'
      → code r ≢ code sep
      → split_from sep size idx parts current (r ∷ rest)
        ≡ split_from sep size (idx + 1) parts (current ++ r ∷ []) rest
  unfolding split_from
  step_plain r [] h k = ground arith
  step_plain r (s ∷ rest) h k = ground arith

  step_sep :
      (r : Char) (rest : List Char)
      → code r ≢ b'\\'
      → code r ≡ code sep
      → split_from sep size idx parts current (r ∷ rest)
        ≡ split_from sep size (idx + 1) (parts ++ string_of current ∷ []) [] rest
  unfolding split_from
  step_sep r [] h k = ground arith
  step_sep r (s ∷ rest) h k = ground arith

  step_escaped :
      (s : Char) (rest : List Char)
      → idx + 1 ≢ size
      → (code s ≡ b'\\') ⊎ (code s ≡ b'.')
      → split_from sep size idx parts current (backslash ∷ s ∷ rest)
        ≡ split_from sep size (idx + 2) parts (current ++ s ∷ []) rest
  unfolding split_from
  step_escaped s rest h k = ground arith

  reindex :
      {idx' : ℕ} {current' : List Char} (rest : List Char)
      → idx ≡ idx'
      → current ≡ current'
      → split_from sep size idx parts current rest ≡ split_from sep size idx' parts current' rest
  reindex rest p q = cc

special_code : (c : Char) → is_special c ≡ true → (code c ≡ b'\\') ⊎ (code c ≡ b'.')
unfolding is_special
special_code c h = ground arith

plain_code : (c : Char) → is_special c ≡ false → (code c ≢ b'\\') × (code c ≢ b'.')
unfolding is_special
plain_code c h = ground arith

-- An escaped name is read whole, whatever follows it.
split_from-escape :
    (size : ℕ) (p tail : List Char) (idx : ℕ) (parts : List String) (current : List Char)
    → idx + length (escape p ++ tail) ≤ size
    → split_from dot size idx parts current (escape p ++ tail)
      ≡ split_from dot size (idx + length (escape p)) parts (current ++ p) tail
split_from-escape size [] tail idx parts current h =
    reindex dot size idx parts current tail (omega arith) (sym (append-nil current))
split_from-escape size (c ∷ s) tail idx parts current h = elim (Bool-cases (is_special c)) [
  | inl e ↦
      let room : idx + length (backslash ∷ c ∷ escape s ++ tail) ≤ size = rw e at h in
      rw e (
        step_escaped dot size idx parts current c (escape s ++ tail) (omega arith)
          (special_code c e)
        ∙ split_from-escape size s tail (idx + 2) parts (current ++ c ∷ []) (omega arith)
        ∙ reindex dot size (idx + 2 + length (escape s)) parts ((current ++ c ∷ []) ++ s) tail
            (omega arith) (append_assoc current (c ∷ []) s))
  | inr e ↦
      let room : idx + length (c ∷ escape s ++ tail) ≤ size = rw e at h in
      let (bare, same) = plain_code c e in
      rw e (
        step_plain dot size idx parts current c (escape s ++ tail) bare same
        ∙ split_from-escape size s tail (idx + 1) parts (current ++ c ∷ []) (omega arith)
        ∙ reindex dot size (idx + 1 + length (escape s)) parts ((current ++ c ∷ []) ++ s) tail
            (omega arith) (append_assoc current (c ∷ []) s))
]

-- The loop over a whole address.
split_from-address :
    (size : ℕ) (p : List Char) (ps : List (List Char)) (idx : ℕ) (parts : List String)
    → idx + length (address p ps) ≤ size
    → split_from dot size idx parts [] (address p ps) ≡ ret (parts ++ map string_of (p ∷ ps))
unfolding split_from
split_from-address size p [] idx parts h =
    let fits : idx + length (escape p ++ []) ≤ size = rw append-nil h in
    ap (split_from dot size idx parts []) (sym (append-nil (escape p)))
    ∙ split_from-escape size p [] idx parts [] fits
split_from-address size p (q ∷ r) idx parts h =
    let after = idx + length (escape p) in
    split_from-escape size p (dot ∷ address q r) idx parts [] h
    ∙ step_sep dot size after parts p dot (address q r) (ground arith) refl
    ∙ split_from-address size q r (after + 1) (parts ++ string_of p ∷ [])
        (omega (arith, length-append (escape p) (dot ∷ address q r)))
    ∙ ap ret (append_assoc parts (string_of p ∷ []) (map string_of (q ∷ r)))

-- Splitting the address of a path gives back the path, whatever its names hold: dots, backslashes
-- and characters of several bytes included.
pub split-address :
    (p : List Char) (ps : List (List Char))
    → split (string_of (address p ps)) dot ≡ ret (map string_of (p ∷ ps))
unfolding split
split-address p ps = rw runes-string_of (
    split_from-address (byte_len (address p ps)) p ps 0 []
      (omega (arith, length-le-byte_len (address p ps))))

-- In a name of ASCII characters alone, as long in bytes as in runes, no index is out of range.
split_from-ne-panic :
    (sep : Char) (size : ℕ) (rest : List Char) (idx : ℕ) (parts : List String) (current : List Char)
    → idx + length rest ≡ size
    → split_from sep size idx parts current rest ≢ panic
unfolding split_from
split_from-ne-panic sep size [] idx parts current h = ground arith
split_from-ne-panic sep size (r ∷ []) idx parts current h = ground arith
split_from-ne-panic sep size (r ∷ s ∷ rest) idx parts current h = ground (
  arith,
  split_from-ne-panic sep size (s ∷ rest) (idx + 1) parts (current ++ r ∷ []),
  split_from-ne-panic sep size rest (idx + 2) parts (current ++ s ∷ []),
  split_from-ne-panic sep size rest (idx + 2) parts ((current ++ r ∷ []) ++ s ∷ []),
  split_from-ne-panic sep size (s ∷ rest) (idx + 1) (parts ++ string_of current ∷ []) [],
)

-- On an ASCII claim name `split` returns; it does not panic.
pub split-total :
    (s : String) (sep : Char)
    → byte_len (runes s) ≡ length (runes s)
    → (out : List String) × (split s sep ≡ ret out)
unfolding split
split-total s sep h =
    ret_of_ne-panic _ (split_from-ne-panic sep (byte_len (runes s)) (runes s) 0 [] [] (omega arith))

-- No backslash among the characters.
abbrev pub HasNoBackslash : List Char → Type 0
HasNoBackslash = All (λ c. code c ≢ b'\\')

split_from-panics :
    (sep : Char) (size : ℕ) (rest : List Char) (idx : ℕ) (parts : List String) (current : List Char)
    → HasNoBackslash rest
    → idx + length rest + 1 < size
    → split_from sep size idx parts current (rest ++ backslash ∷ []) ≡ panic
split_from-panics sep size [] idx parts current h k = unfold split_from in ground arith
split_from-panics sep size (r ∷ rest) idx parts current h k = ground (
  arith,
  step_plain sep size idx parts current r (rest ++ backslash ∷ []),
  step_sep sep size idx parts current r (rest ++ backslash ∷ []),
  split_from-panics sep size rest (idx + 1) parts (current ++ r ∷ []) h.1,
  split_from-panics sep size rest (idx + 1) (parts ++ string_of current ∷ []) [] h.1,
)

-- A claim name with a character of several bytes, and one backslash, at its end, makes `split`
-- panic: the test for the last index compares an index of runes with a length in bytes.
pub split-panics :
    (s : List Char) (sep : Char)
    → HasNoBackslash s
    → length s < byte_len s
    → split (string_of (s ++ backslash ∷ [])) sep ≡ panic
unfolding split
split-panics s sep h k = rw runes-string_of (
    split_from-panics sep (byte_len (s ++ backslash ∷ [])) s 0 [] [] h
      (omega (arith, byte_len-append s (backslash ∷ []))))
