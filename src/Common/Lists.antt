-- ===== src/Common/Lists.antt =====
-- Lists measured and indexed by native numbers, under the library's names, and areas of memory:
-- a list of bytes from some address on.
use Prim.Native.Nat.{ℕ, zero, suc, ◌+◌, ◌-◌, ◌≤◌, ◌<◌}
use mathlib.Core.Path.{◌≡◌, refl, ap}
use mathlib.Core.List.{List, [], ◌∷◌, ◌++◌}
use mathlib.Core.Option.{Option, none, some}
use native.Mathlib.Omega.{arith}

module _ {ℓ} {A : Type ℓ} where
  abbrev pub length : List A → ℕ
  length [] = 0
  length (x ∷ xs) = suc (length xs)

  abbrev pub get_elem? : List A → ℕ → Option A
  get_elem? [] i = none
  get_elem? (x ∷ xs) zero = some x
  get_elem? (x ∷ xs) (suc i) = get_elem? xs i

  abbrev pub get_or : List A → ℕ → A → A
  get_or [] i d = d
  get_or (x ∷ xs) zero d = x
  get_or (x ∷ xs) (suc i) d = get_or xs i d

  -- A write out of bounds changes nothing.
  abbrev pub set : List A → ℕ → A → List A
  set [] i v = []
  set (x ∷ xs) zero v = v ∷ xs
  set (x ∷ xs) (suc i) v = x ∷ set xs i v

  abbrev pub take : ℕ → List A → List A
  take zero xs = []
  take (suc n) [] = []
  take (suc n) (x ∷ xs) = x ∷ take n xs

  abbrev pub drop : ℕ → List A → List A
  drop zero xs = xs
  drop (suc n) [] = []
  drop (suc n) (x ∷ xs) = drop n xs

  abbrev pub replicate : ℕ → A → List A
  replicate zero a = []
  replicate (suc n) a = a ∷ replicate n a

  pub length-append : (xs ys : List A) → length (xs ++ ys) ≡ length xs + length ys
  length-append [] ys = omega arith
  length-append (x ∷ xs) ys = omega (arith, length-append xs ys)

  pub length-replicate : (n : ℕ) (a : A) → length (replicate n a) ≡ n
  length-replicate zero a = refl
  length-replicate (suc n) a = ap suc (length-replicate n a)

  pub get_elem?-eq-get_or :
      (xs : List A) (i : ℕ) (d : A) → i < length xs → get_elem? xs i ≡ some (get_or xs i d)
  get_elem?-eq-get_or [] i d h = absurd (omega arith)
  get_elem?-eq-get_or (x ∷ xs) zero d h = refl
  get_elem?-eq-get_or (x ∷ xs) (suc i) d h = get_elem?-eq-get_or xs i d (omega arith)

  -- `memcpy(dst + off, src, n)` for a source of `n` bytes inside the area.
  abbrev pub store : List A → ℕ → List A → List A
  store dst zero [] = dst
  store [] zero (b ∷ src) = []
  store (x ∷ dst) zero (b ∷ src) = b ∷ store dst zero src
  store [] (suc off) src = []
  store (x ∷ dst) (suc off) src = x ∷ store dst off src

  pub length-drop : (n : ℕ) (xs : List A) → length (drop n xs) ≡ length xs - n
  length-drop zero xs = omega arith
  length-drop (suc n) [] = omega arith
  length-drop (suc n) (x ∷ xs) = omega (arith, length-drop n xs)

  pub store_front :
      (dst src : List A) → length src ≤ length dst → store dst 0 src ≡ src ++ drop (length src) dst
  store_front dst [] h = refl
  store_front [] (b ∷ src) h = absurd (omega arith)
  store_front (x ∷ dst) (b ∷ src) h = ap (λ t. b ∷ t) (store_front dst src (omega arith))

  pub length-store :
      (dst : List A) (off : ℕ) (src : List A) → length (store dst off src) ≡ length dst
  length-store dst zero [] = refl
  length-store [] zero (b ∷ src) = refl
  length-store (x ∷ dst) zero (b ∷ src) = ap suc (length-store dst zero src)
  length-store [] (suc off) src = refl
  length-store (x ∷ dst) (suc off) src = ap suc (length-store dst off src)
