-- ===== src/Common/Result.antt =====
-- Exceptions as values: `throw std::exception` and `throw "text"`, which only `catch(...)` catches.
use mathlib.Core.Path.{◌≡◌, refl}
use mathlib.Core.Logic.{◌⊎◌, inl, inr}
use mathlib.Core.Bool.{Bool, true, false}

pub data Exception : Type 0 where
  std_exception text : Exception

pub data Result {ℓ} (A : Type ℓ) : Type ℓ where
  ok : A → Result A
  thrown : Exception → Result A

infixl 5 ◌>>=◌ ◌>>◌
abbrev pub ◌>>=◌ {ℓ κ} : {A : Type ℓ} {B : Type κ} → Result A → (A → Result B) → Result B
ok a >>= f = f a
thrown e >>= f = thrown e

abbrev pub ◌>>◌ {ℓ} : {B : Type ℓ} → Result (Unit {0}) → Result B → Result B
m >> k = m >>= λ _. k

abbrev pub throw_if : Bool → Exception → Result (Unit {0})
throw_if true e = thrown e
throw_if false e = ok tt

-- The same under a name, where `>>=` is that of `Option`.
abbrev pub bind {ℓ κ} : {A : Type ℓ} {B : Type κ} → Result A → (A → Result B) → Result B
bind m f = m >>= f

-- A run gives a value or throws.
pub Result-cases {ℓ} :
    {A : Type ℓ} → (m : Result A) → ((a : A) × (m ≡ ok a)) ⊎ ((e : Exception) × (m ≡ thrown e))
Result-cases (ok a) = inl (a, refl)
Result-cases (thrown e) = inr (e, refl)
