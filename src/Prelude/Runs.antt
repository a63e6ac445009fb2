-- ===== src/Prelude/Runs.antt =====
-- What a Go call gives back: a value, or a run-time panic.
use mathlib.Core.Path.{◌≡◌, refl}
use mathlib.Core.Logic.{◌≢◌, ◌⊎◌, inl, inr}

pub data Run {ℓ} (A : Type ℓ) : Type ℓ where
  ret : A → Run A
  panic : Run A

infixl 5 ◌>>=◌
abbrev pub ◌>>=◌ {ℓ κ} : {A : Type ℓ} {B : Type κ} → Run A → (A → Run B) → Run B
ret a >>= f = f a
panic >>= f = panic

-- A call that does not panic has a value.
pub ret_of_ne-panic {ℓ} : {A : Type ℓ} (m : Run A) → m ≢ panic → (a : A) × (m ≡ ret a)
ret_of_ne-panic (ret a) h = (a, refl)
ret_of_ne-panic panic h = absurd (h refl)

-- The parts of a call that has a value.
pub >>=-eq-ret {ℓ κ} :
    {A : Type ℓ} {B : Type κ} (m : Run A) (f : A → Run B) {b : B}
    → (m >>= f) ≡ ret b
    → (a : A) × (m ≡ ret a) × (f a ≡ ret b)
>>=-eq-ret (ret a) f h = (a, refl, h)
>>=-eq-ret panic f h = cc

pub Run-cases {ℓ} : {A : Type ℓ} (m : Run A) → (m ≡ panic) ⊎ ((a : A) × (m ≡ ret a))
Run-cases (ret a) = inr (a, refl)
Run-cases panic = inl refl
