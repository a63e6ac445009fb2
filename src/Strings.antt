-- ===== src/Strings.antt =====
-- What the program uses of Go's package `strings`, on texts that are valid UTF-8: there a match of
-- bytes is a match of code points.
pub mod Decimal
use text.Mathlib.TextEquality.{Char-path}
use hub_agent_kubernetes.Prelude.{
  ℕ, zero, suc, ◌-◌, Char, code, String, ◌≡◌, refl, ap, ◌↔◌, Bool, true, false, ◌&&◌, ◌||◌, List,
  [], ◌∷◌, ◌++◌, Eq, nat_beq, nat_beq_iff, nat_eq, leb, length, drop, if◌then◌else◌, ◌==◌,
}

abbrev pub char_beq : Char → Char → Bool
char_beq a b = nat_beq (code a) (code b)

pub char_beq_iff : (a b : Char) → (char_beq a b ≡ true) ↔ (a ≡ b)
char_beq_iff a b =
    (λ h. Char-path a b ((nat_beq_iff _ _).0 h), λ h. (nat_beq_iff _ _).1 (ap code h))

instance abbrev pub char_eq : Eq Char
char_eq = record { same = char_beq; same_iff = char_beq_iff }

-- `[]rune(s)`
abbrev pub runes : String → List Char
runes String.[] = []
runes (String.◌∷◌ c s) = c ∷ runes s

-- `string(rs)`
abbrev pub string_of : List Char → String
string_of [] = String.[]
string_of (c ∷ s) = String.◌∷◌ c (string_of s)

pub runes-string_of : (s : List Char) → runes (string_of s) ≡ s
runes-string_of [] = refl
runes-string_of (c ∷ s) = ap (◌∷◌ c) (runes-string_of s)

pub string_of-runes : (s : String) → string_of (runes s) ≡ s
string_of-runes String.[] = refl
string_of-runes (String.◌∷◌ c s) = ap (String.◌∷◌ c) (string_of-runes s)

-- The bytes of a code point in UTF-8.
abbrev pub width : Char → ℕ
width c =
    if leb (code c) 0x7f
    then 1
    else if leb (code c) 0x7ff
    then 2
    else if leb (code c) 0xffff
    then 3
    else 4

-- `len(s)`
abbrev pub byte_len : List Char → ℕ
byte_len [] = 0
byte_len (c ∷ s) = Prim.Native.Nat.◌+◌ (width c) (byte_len s)

-- `strings.HasPrefix(s, p)`
unfoldable pub has_prefix : List Char → List Char → Bool
has_prefix s [] = true
has_prefix [] (d ∷ p) = false
has_prefix (c ∷ s) (d ∷ p) = c == d && has_prefix s p

-- `strings.Contains(s, p)`
unfoldable pub contains : List Char → List Char → Bool
unfolding has_prefix
contains [] p = has_prefix [] p
contains (c ∷ s) p = has_prefix (c ∷ s) p || contains s p

-- The loop of `strings.Split`: `skip` code points are left of a separator that was found.
split_from : List Char → ℕ → List Char → List Char → List (List Char)
unfolding has_prefix
split_from sep skip cur [] = cur ∷ []
split_from sep zero cur (c ∷ s) =
    let closed = cur ∷ split_from sep (length sep - 1) [] s in
    let longer = split_from sep zero (cur ++ c ∷ []) s in
    if has_prefix (c ∷ s) sep then closed else longer
split_from sep (suc skip) cur (c ∷ s) = split_from sep skip cur s

explode : List Char → List (List Char)
explode [] = []
explode (c ∷ s) = (c ∷ []) ∷ explode s

-- `strings.Split(s, sep)`
unfoldable pub split : List Char → List Char → List (List Char)
unfolding split_from explode
split s [] = explode s
split s (c ∷ sep) = split_from (c ∷ sep) zero [] s

-- `strings.Join(parts, sep)`
unfoldable pub join : List (List Char) → List Char → List Char
join [] sep = []
join (p ∷ []) sep = p
join (p ∷ q ∷ r) sep = p ++ (sep ++ join (q ∷ r) sep)

-- `unicode.IsSpace`
unfoldable pub is_space : Char → Bool
is_space c =
    let n = code c in
    leb 0x9 n && leb n 0xd
    || n == 0x20
    || n == 0x85
    || n == 0xa0
    || n == 0x1680
    || leb 0x2000 n && leb n 0x200a
    || n == 0x2028
    || n == 0x2029
    || n == 0x202f
    || n == 0x205f
    || n == 0x3000

trim_left : List Char → List Char
unfolding is_space
trim_left [] = []
trim_left (c ∷ s) = let rest = trim_left s in if is_space c then rest else c ∷ s

trim_before : Char → List Char → List Char
unfolding is_space
trim_before c [] = if is_space c then [] else c ∷ []
trim_before c (d ∷ r) = c ∷ d ∷ r

trim_right : List Char → List Char
unfolding trim_before
trim_right [] = []
trim_right (c ∷ s) = trim_before c (trim_right s)

-- `strings.TrimSpace(s)`
unfoldable pub trim_space : List Char → List Char
unfolding trim_left trim_right
trim_space s = trim_right (trim_left s)

-- `strings.TrimPrefix(s, p)`
unfoldable pub trim_prefix : List Char → List Char → List Char
unfolding has_prefix
trim_prefix s p = if has_prefix s p then drop (length p) s else s
