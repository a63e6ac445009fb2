-- ===== src/Strings/Decimal.antt =====
-- `%d` of Go's `fmt` on numbers that are not negative.
use hub_agent_kubernetes.Prelude.{
  ℕ, zero, suc, ◌+◌, ◌-◌, ◌*◌, ◌/◌, ◌%◌, ◌≤◌, ◌<◌, Char, code, List, [], ◌∷◌, ◌++◌, ◌≡◌, refl, ap,
  sym, ◌∙◌, arith, ltb, ltb→lt, lt→ltb, if◌then◌else◌, Bool-cases, inl, inr,
}
use hub_agent_kubernetes.Strings.{width, byte_len}

abbrev digit : ℕ → Char
digit zero = "0"
digit (suc zero) = "1"
digit (suc (suc zero)) = "2"
digit (suc (suc (suc zero))) = "3"
digit (suc (suc (suc (suc zero)))) = "4"
digit (suc (suc (suc (suc (suc zero))))) = "5"
digit (suc (suc (suc (suc (suc (suc zero)))))) = "6"
digit (suc (suc (suc (suc (suc (suc (suc zero))))))) = "7"
digit (suc (suc (suc (suc (suc (suc (suc (suc zero)))))))) = "8"
digit n = "9"

-- The fuel is the number itself, which is enough: each round divides it by ten.
decimal_from : ℕ → ℕ → List Char
decimal_from zero n = digit (n % 10) ∷ []
decimal_from (suc fuel) n =
    let rest = decimal_from fuel (n / 10) in
    if ltb n 10 then digit n ∷ [] else rest ++ digit (n % 10) ∷ []

unfoldable pub decimal : ℕ → List Char
unfolding decimal_from
decimal n = decimal_from n n

-- The number that digits spell.
abbrev spelt : List Char → ℕ → ℕ
spelt [] acc = acc
spelt (c ∷ s) acc = spelt s (10 * acc + (code c - 48))

spelt-append : (s t : List Char) (acc : ℕ) → spelt (s ++ t) acc ≡ spelt t (spelt s acc)
spelt-append [] t acc = refl
spelt-append (c ∷ s) t acc = spelt-append s t (10 * acc + (code c - 48))

code-digit : (d : ℕ) → d < 10 → code (digit d) ≡ d + 48
code-digit zero h = refl
code-digit (suc zero) h = refl
code-digit (suc (suc zero)) h = refl
code-digit (suc (suc (suc zero))) h = refl
code-digit (suc (suc (suc (suc zero)))) h = refl
code-digit (suc (suc (suc (suc (suc zero))))) h = refl
code-digit (suc (suc (suc (suc (suc (suc zero)))))) h = refl
code-digit (suc (suc (suc (suc (suc (suc (suc zero))))))) h = refl
code-digit (suc (suc (suc (suc (suc (suc (suc (suc zero)))))))) h = refl
code-digit (suc (suc (suc (suc (suc (suc (suc (suc (suc zero))))))))) h = refl
code-digit (suc (suc (suc (suc (suc (suc (suc (suc (suc (suc n)))))))))) h = absurd (omega arith)

spelt-decimal_from : (fuel n : ℕ) → n ≤ fuel → spelt (decimal_from fuel n) 0 ≡ n
unfolding decimal_from
spelt-decimal_from zero n h = let e = code-digit (n % 10) (omega arith) in omega (arith, e)
spelt-decimal_from (suc fuel) n h = elim (Bool-cases (ltb n 10)) [
  | inl small ↦ rw small (omega (arith, code-digit n (ltb→lt n 10 small)))
  | inr large ↦
      let big : 10 ≤ n = ground (arith, large) in
      let ih = spelt-decimal_from fuel (n / 10) (omega arith) in
      rw large (
        spelt-append (decimal_from fuel (n / 10)) (digit (n % 10) ∷ []) 0
        ∙ omega (arith, ih, code-digit (n % 10) (omega arith)))
]

-- Distinct numbers print differently.
pub decimal_injective : (a b : ℕ) → decimal a ≡ decimal b → a ≡ b
unfolding decimal
decimal_injective a b e =
    sym (spelt-decimal_from a a (omega arith))
    ∙ ap (λ s. spelt s 0) e
    ∙ spelt-decimal_from b b (omega arith)

width-digit : (d : ℕ) → width (digit d) ≡ 1
width-digit zero = refl
width-digit (suc zero) = refl
width-digit (suc (suc zero)) = refl
width-digit (suc (suc (suc zero))) = refl
width-digit (suc (suc (suc (suc zero)))) = refl
width-digit (suc (suc (suc (suc (suc zero))))) = refl
width-digit (suc (suc (suc (suc (suc (suc zero)))))) = refl
width-digit (suc (suc (suc (suc (suc (suc (suc zero))))))) = refl
width-digit (suc (suc (suc (suc (suc (suc (suc (suc zero)))))))) = refl
width-digit (suc (suc (suc (suc (suc (suc (suc (suc (suc zero))))))))) = refl
width-digit (suc (suc (suc (suc (suc (suc (suc (suc (suc (suc n)))))))))) = refl

byte_len-decimal_from : (fuel n : ℕ) → n ≤ fuel → n < 100 → byte_len (decimal_from fuel n) ≤ 2
unfolding decimal_from
byte_len-decimal_from zero n h few = omega (arith, width-digit (n % 10))
byte_len-decimal_from (suc zero) n h few =
    rw (lt→ltb n 10 (omega arith)) (omega (arith, width-digit n))
byte_len-decimal_from (suc (suc fuel)) n h few = elim (Bool-cases (ltb n 10)) [
  | inl small ↦ rw small (omega (arith, width-digit n))
  | inr large ↦
      rw (large, lt→ltb (n / 10) 10 (omega arith))
        (omega (arith, width-digit (n / 10), width-digit (n % 10)))
]

-- A number below 100 prints in two bytes at most.
pub byte_len-decimal : (n : ℕ) → n < 100 → byte_len (decimal n) ≤ 2
unfolding decimal
byte_len-decimal n few = byte_len-decimal_from n n (omega arith) few
