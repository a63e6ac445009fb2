-- ===== src/Int64.antt =====
-- Go's `int64` as its bit pattern, a number below 2 ^ 64 in two's complement.
use hub_agent_kubernetes.Prelude.{
  ℕ, ◌+◌, ◌-◌, ◌/◌, ◌%◌, ◌^◌, ◌<◌, Bool, ◌≡◌, arith, ltb, if◌then◌else◌,
}

abbrev pub Int64 : Type 0
Int64 = ℕ

abbrev pub modulus : ℕ
modulus = 2 ^ 64

abbrev pub half : ℕ
half = 2 ^ 63

-- `a + b`, `a - b` and `-a` wrap around.
abbrev pub add : Int64 → Int64 → Int64
add a b = (a + b) % modulus

abbrev pub sub : Int64 → Int64 → Int64
sub a b = (a + modulus - b) % modulus

abbrev pub neg : Int64 → Int64
neg a = (modulus - a) % modulus

-- `a < b` on the signed values.
abbrev pub less : Int64 → Int64 → Bool
less a b = ltb ((a + half) % modulus) ((b + half) % modulus)

-- `a % n` and `a / n` for a positive `n`: they round towards zero.
abbrev pub rem : Int64 → ℕ → Int64
rem a n = if ltb a half then a % n else neg (neg a % n)

abbrev pub quot : Int64 → ℕ → Int64
quot a n = if ltb a half then a / n else neg (neg a / n)

-- The patterns that stand for no negative number, on which the order is that of ℕ.
abbrev pub IsNat : Int64 → Type 0
IsNat a = a < half

pub less-ltb : (a b : Int64) → IsNat a → IsNat b → less a b ≡ ltb a b
less-ltb a b h k = ground arith

pub add-exact : (a b : Int64) → a + b < half → add a b ≡ a + b
add-exact a b h = omega arith
