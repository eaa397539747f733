-- ===== src/Hl/SmartPtr.antt =====
-- src/hl/smart_ptr.h: pointers that count the references to an object, on a store of objects and of
-- pointer variables.
pub mod Balance
pub mod Cells
pub mod Counts
mod Tests
use virtual_gw.Common.{
  ℕ, zero, suc, ◌-◌, ◌^◌, ◌≤◌, ◌<◌, ◌≡◌, refl, sym, ap, ◌∙◌, Option, none, some, List, [], ◌∷◌,
  ◌++◌, arith, if◌then◌else◌, ◌>>=◌, length, get_elem?, set,
}
use virtual_gw.Common.Int.{ℤ, pos, leb_ℤ, add_int, sub_int, sub_int-pos, add_int-pos}

-- The counts of the objects made so far, `none` for one that is deleted; and what the variables
-- point to, `none` for null.
pub record Store : Type 0 where
  pub counts : List (Option ℤ)
  pub pointers : List (Option ℕ)

-- `add_ref` and `release` of `intrusive_counter`, on what the count of an object holds; `none` is a
-- call on an object that is deleted or was never made.
unfoldable pub add_ref : Option (Option ℤ) → Option (Option ℤ)
add_ref (some (some count)) = some (some (add_int count (pos 1)))
add_ref (some none) = none
add_ref none = none

unfoldable pub release : Option (Option ℤ) → Option (Option ℤ)
release (some (some count)) =
    let less = sub_int count (pos 1) in some (if leb_ℤ less (pos 0) then none else some less)
release (some none) = none
release none = none

-- One of them through a pointer that may be null.
unfoldable pub through :
    (Option (Option ℤ) → Option (Option ℤ)) → Option ℕ → List (Option ℤ) → Option (List (Option ℤ))
through op none counts = some counts
through op (some a) counts = do c ← op (get_elem? counts a); some (set counts a c)

-- The constructor from the address of a new object, at the end of the variables.
unfoldable pub make : Store → Option Store
make s = do
  counts ← through add_ref (some (length s.counts)) (s.counts ++ some (pos 0) ∷ [])
  some (record { counts = counts; pointers = s.pointers ++ some (length s.counts) ∷ [] })

-- The copy of the variable `j`, at the end of the variables.
unfoldable pub copy : ℕ → Store → Option Store
copy j s = do
  r ← get_elem? s.pointers j
  counts ← through add_ref r s.counts
  some (record { counts = counts; pointers = s.pointers ++ r ∷ [] })

-- `operator=` of the variable `i` from the variable `j`.
unfoldable pub assign : ℕ → ℕ → Store → Option Store
assign i j s = do
  p ← get_elem? s.pointers i
  r ← get_elem? s.pointers j
  released ← through release p s.counts
  counts ← through add_ref r released
  some (record { counts = counts; pointers = set s.pointers i r })

-- The destructor of the variable `i`, which is not used again.
unfoldable pub destroy : ℕ → Store → Option Store
destroy i s = do
  p ← get_elem? s.pointers i
  counts ← through release p s.counts
  some (record { counts = counts; pointers = set s.pointers i none })

pub get_elem?-set :
    {A : Type 0} (xs : List A) (i : ℕ) (x y : A)
    → get_elem? xs i ≡ some x
    → get_elem? (set xs i y) i ≡ some y
get_elem?-set [] i x y h = cc
get_elem?-set (z ∷ xs) zero x y h = refl
get_elem?-set (z ∷ xs) (suc i) x y h = get_elem?-set xs i x y h

set-set : {A : Type 0} (xs : List A) (i : ℕ) (x y : A) → set (set xs i x) i y ≡ set xs i y
set-set [] i x y = refl
set-set (z ∷ xs) zero x y = refl
set-set (z ∷ xs) (suc i) x y = ap (λ r. z ∷ r) (set-set xs i x y)

set-same : {A : Type 0} (xs : List A) (i : ℕ) (x : A) → get_elem? xs i ≡ some x → set xs i x ≡ xs
set-same [] i x h = cc
set-same (z ∷ xs) zero x h = ap (λ y. y ∷ xs) (sym (ap (λ o. elim o [ some y ↦ y | none ↦ x ]) h))
set-same (z ∷ xs) (suc i) x h = ap (λ r. z ∷ r) (set-same xs i x h)

pub release_last : release (some (some (pos 1))) ≡ some none
unfolding release
release_last = rw (sub_int-pos 1 1 (omega arith) (omega arith)) refl

pub release_one :
    (n : ℕ) → 2 ≤ n → n < 2 ^ 31 → release (some (some (pos n))) ≡ some (some (pos (n - 1)))
unfolding release
release_one n h k = rw (sub_int-pos n 1 (omega arith) k) (ground arith)

add_ref_one :
    (n : ℕ) → 2 ≤ n → n < 2 ^ 31 → add_ref (some (some (pos (n - 1)))) ≡ some (some (pos n))
unfolding add_ref
add_ref_one n h k =
    rw (add_int-pos (n - 1) 1 (omega arith)) (ap (λ m. some (some (pos m))) (omega arith))

add_ref_deleted : add_ref (some none) ≡ none
unfolding add_ref
add_ref_deleted = refl

-- The assignment of a variable to itself: where it is the only pointer to its object, the object is
-- deleted first and then used; where the count of the object is from 2 to 2 ^ 31 - 1, nothing
-- changes.
pub assign_self :
    (s : Store) (i a n : ℕ)
    → get_elem? s.pointers i ≡ some (some a)
    → get_elem? s.counts a ≡ some (some (pos n))
    → n < 2 ^ 31
    → ((n ≡ 1) → assign i i s ≡ none) × ((2 ≤ n) → assign i i s ≡ some s)
unfolding assign through
assign_self s i a n p c h = (
  λ one.
      rw
        (
          p,
          c ∙ ap (λ m. some (some (pos m))) one,
          release_last,
          get_elem?-set s.counts a (some (pos n)) none c,
          add_ref_deleted,
        )
        refl,
  λ more.
      let less = set s.counts a (some (pos (n - 1))) in
      rw
        (
          p,
          c,
          release_one n more h,
          get_elem?-set s.counts a (some (pos n)) (some (pos (n - 1))) c,
          add_ref_one n more h,
          set-set s.counts a (some (pos (n - 1))) (some (pos n)),
          set-same s.counts a (some (pos n)) c,
          set-same s.pointers i (some a) p,
        )
        refl,
)
