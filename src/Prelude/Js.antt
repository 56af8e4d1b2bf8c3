-- ===== src/Prelude/Js.antt =====
-- JavaScript numbers, as far as the range checks of the program look at them, and results of code
-- that may throw.
use pi_to_pi.Prelude.Tests.{leb}
use Prim.Native.Nat.{ℕ}
use mathlib.Core.Bool.{Bool, true, false}
use mathlib.Core.Path.{◌≡◌, refl}

-- `negsuc n` is -(n + 1).
pub data ℤ : Type 0 where
  pos negsuc : ℕ → ℤ

-- `between n` stands for the numbers strictly between `n` and `n + 1`.
pub data Num : Type 0 where
  nan infinity minus_infinity : Num
  int between : ℤ → Num

-- `Number.isFinite(x) && x > 0`
abbrev pub is_finite_positive : Num → Bool
is_finite_positive (int (pos n)) = leb 1 n
is_finite_positive (between (pos n)) = true
is_finite_positive _ = false

-- The value returned or thrown.
pub data Result {ℓ κ} (E : Type ℓ) (A : Type κ) : Type (ℓ ⊔ κ) where
  ok : A → Result E A
  err : E → Result E A

-- Code after a call that may throw.
infixl 5 ◌>>=◌
abbrev pub ◌>>=◌ {ℓ κ μ} :
    {E : Type ℓ} {A : Type κ} {B : Type μ} → Result E A → (A → Result E B) → Result E B
err thrown >>= rest = err thrown
ok value >>= rest = rest value

-- What holds of the value, if one is returned.
pub data Ensures {ℓ κ μ} {E : Type ℓ} {A : Type κ} (P : A → Type μ)
    : Result E A → Type (ℓ ⊔ κ ⊔ μ) where
  returns : {value : A} → P value → Ensures P (ok value)
  throws : {thrown : E} → Ensures P (err thrown)

pub of_returns {ℓ κ μ} :
    {E : Type ℓ} {A : Type κ} {P : A → Type μ} {value : A} → Ensures {E = E} P (ok value) → P value
of_returns (returns holds) = holds

pub Ensures-bind {ℓ κ μ ν} :
    {E : Type ℓ} {A : Type κ} {B : Type μ} (P : B → Type ν) (first : Result E A)
    (rest : A → Result E B)
    → ((value : A) → first ≡ ok value → Ensures P (rest value))
    → Ensures P (first >>= rest)
Ensures-bind P (ok value) rest holds = holds value refl
Ensures-bind P (err thrown) rest holds = throws
