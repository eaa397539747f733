-- ===== src/Hl/SmartPtr/Cells.antt =====
-- Lists of cells, of which src/hl/smart_ptr.h changes one or adds one at the end.
use virtual_gw.Common.{
  ℕ, zero, suc, ◌≡◌, refl, ap, false, none, some, List, [], ◌∷◌, ◌++◌, arith, ◌==◌, length,
  get_elem?, set,
}

pub set-length : {A : Type 0} (xs : List A) (i : ℕ) (y : A) → length (set xs i y) ≡ length xs
set-length [] i y = refl
set-length (x ∷ xs) zero y = refl
set-length (x ∷ xs) (suc i) y = ap suc (set-length xs i y)

pub elem_end : {A : Type 0} (xs : List A) (z : A) → get_elem? (xs ++ z ∷ []) (length xs) ≡ some z
elem_end [] z = refl
elem_end (x ∷ xs) z = elem_end xs z

pub elem_before :
    {A : Type 0} (xs : List A) (z : A) (b : ℕ)
    → (length xs == b) ≡ false
    → get_elem? (xs ++ z ∷ []) b ≡ get_elem? xs b
elem_before [] z zero h = absurd (ground arith)
elem_before [] z (suc b) h = refl
elem_before (x ∷ xs) z zero h = refl
elem_before (x ∷ xs) z (suc b) h = elem_before xs z b (ground arith)

pub elem_past : {A : Type 0} (xs : List A) → get_elem? xs (length xs) ≡ none
elem_past [] = refl
elem_past (x ∷ xs) = elem_past xs

pub set_end : {A : Type 0} (xs : List A) (y z : A) → set (xs ++ y ∷ []) (length xs) z ≡ xs ++ z ∷ []
set_end [] y z = refl
set_end (x ∷ xs) y z = ap (λ r. x ∷ r) (set_end xs y z)
