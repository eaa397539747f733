-- ===== src/Hl/SmartPtr/Counts.antt =====
-- The counts of src/hl/smart_ptr.h are the numbers of the pointers.
use virtual_gw.Common.{
  ℕ, zero, suc, ◌+◌, ◌-◌, ◌^◌, ◌≤◌, ◌<◌, ◌≡◌, refl, ap, ◌∙◌, inl, inr, false, Option, none, some,
  List, [], ◌∷◌, ◌++◌, arith, ◌==◌, if◌then◌else◌, ==_iff, Bool-cases, get_elem?, set,
}
use virtual_gw.Common.Int.{ℤ, pos, add_int-pos}
use mathlib.Core.Path.{subst}
use virtual_gw.Hl.SmartPtr.{
  Store, add_ref, release, through, get_elem?-set, release_last, release_one,
}

-- How many of the variables point to an object.
abbrev pub hit : Option ℕ → ℕ → ℕ
hit none a = 0
hit (some b) a = if b == a then 1 else 0

abbrev pub refs : ℕ → List (Option ℕ) → ℕ
refs a [] = 0
refs a (p ∷ ps) = hit p a + refs a ps

-- What the count of an object with `n` pointers holds: `n`, and an object without is deleted.
abbrev pub Held : Option (Option ℤ) → ℕ → Type 0
Held none n = n ≡ 0
Held (some none) n = n ≡ 0
Held (some (some c)) n = (c ≡ pos n) × (0 < n)

abbrev pub Counted : List (Option ℤ) → (ℕ → ℕ) → Type 0
Counted counts f = (a : ℕ) → Held (get_elem? counts a) (f a)

-- The counts are the numbers of the pointers.
abbrev pub IsBalanced : Store → Type 0
IsBalanced s = Counted s.counts (λ a. refs a s.pointers)

-- How many of a variable that is there.
abbrev hits : ℕ → Option (Option ℕ) → ℕ
hits a none = 0
hits a (some p) = hit p a

pub refs-set :
    (a i : ℕ) (ps : List (Option ℕ)) (p q : Option ℕ)
    → get_elem? ps i ≡ some p
    → refs a (set ps i q) + hit p a ≡ refs a ps + hit q a
refs-set a i [] p q h = cc
refs-set a zero (x ∷ ps) p q h = omega (arith, ap (hits a) h)
refs-set a (suc i) (x ∷ ps) p q h = omega (arith, refs-set a i ps p q h)

pub refs-append :
    (a : ℕ) (ps : List (Option ℕ)) (q : Option ℕ) → refs a (ps ++ q ∷ []) ≡ refs a ps + hit q a
refs-append a [] q = omega arith
refs-append a (p ∷ ps) q = omega (arith, refs-append a ps q)

pub get_elem?-set-other :
    {A : Type 0} (xs : List A) (i j : ℕ) (y : A)
    → (i == j) ≡ false
    → get_elem? (set xs i y) j ≡ get_elem? xs j
get_elem?-set-other [] i j y h = refl
get_elem?-set-other (x ∷ xs) zero zero y h = absurd (ground arith)
get_elem?-set-other (x ∷ xs) zero (suc j) y h = refl
get_elem?-set-other (x ∷ xs) (suc i) zero y h = refl
get_elem?-set-other (x ∷ xs) (suc i) (suc j) y h = get_elem?-set-other xs i j y (ground arith)

-- What an object with a pointer holds.
Held-alive : (o : Option (Option ℤ)) (n : ℕ) → Held o n → 0 < n → o ≡ some (some (pos n))
Held-alive none n h l = absurd (omega arith)
Held-alive (some none) n h l = absurd (omega arith)
Held-alive (some (some c)) n (e, k) l = ap (λ c. some (some c)) e

pub Counted-set :
    (counts : List (Option ℤ)) (f : ℕ → ℕ) (g : ℕ → ℕ) (a : ℕ) (x y : Option ℤ)
    → Counted counts f
    → get_elem? counts a ≡ some x
    → Held (some y) (g a)
    → ((b : ℕ) → (a == b) ≡ false → g b ≡ f b)
    → Counted (set counts a y) g
Counted-set counts f g a x y h e k same b = elim (Bool-cases (a == b)) [
  | inl i ↦
      subst (λ c. Held (get_elem? (set counts a y) c) (g c)) ((==_iff a b).0 i)
        (rw (get_elem?-set counts a x y e) k)
  | inr i ↦ rw (get_elem?-set-other counts a b y i, same b i) (h b)
]

-- What `release` and `add_ref` leave of the object `a` with `n` pointers.
release-Held :
    (n : ℕ)
    → 0 < n
    → n < 2 ^ 31
    → (y : Option ℤ) × (release (some (some (pos n))) ≡ some y) × Held (some y) (n - 1)
release-Held n h k = elim (Bool-cases (n == 1)) [
  | inl e ↦ (
    none,
    ap (λ m. release (some (some (pos m)))) ((==_iff n 1).0 e) ∙ release_last,
    omega (arith, (==_iff n 1).0 e),
  )
  | inr e ↦ (some (pos (n - 1)), release_one n (ground arith) k, (refl, ground arith))
]

add_ref-Held :
    (n : ℕ)
    → 0 < n
    → n + 1 < 2 ^ 31
    → (y : Option ℤ) × (add_ref (some (some (pos n))) ≡ some y) × Held (some y) (n + 1)
unfolding add_ref
add_ref-Held n h k = (some (pos (n + 1)), rw (add_int-pos n 1 k) refl, (refl, omega arith))

pub plus_zero : (n : ℕ) → n + 0 ≡ n
plus_zero n = omega arith

minus_zero : (n : ℕ) → n - 0 ≡ n
minus_zero n = omega arith

pub hit_self : (a : ℕ) → hit (some a) a ≡ 1
hit_self a = ground arith

pub hit_other : (a b : ℕ) → (a == b) ≡ false → hit (some a) b ≡ 0
hit_other a b h = ground arith

pub release_counts :
    (counts : List (Option ℤ)) (f : ℕ → ℕ) (p : Option ℕ)
    → Counted counts f
    → ((a : ℕ) → f a < 2 ^ 31)
    → ((a : ℕ) → hit p a ≤ f a)
    → (counts' : List (Option ℤ)) × (through release p counts ≡ some counts')
      × Counted counts' (λ a. f a - hit p a)
unfolding through
release_counts counts f none h b l = (counts, refl, λ a. rw (minus_zero (f a)) (h a))
release_counts counts f (some a) h b l =
    let once = hit_self a in
    let alive = Held-alive (get_elem? counts a) (f a) (h a) (omega (arith, l a)) in
    let (y, e, k) = release-Held (f a) (omega (arith, l a)) (b a) in
    (
      set counts a y,
      rw (alive, e) refl,
      Counted-set counts f (λ c. f c - hit (some a) c) a (some (pos (f a))) y h alive (rw once k)
          (λ c d. rw (hit_other a c d) (minus_zero (f c))),
    )

pub add_ref_counts :
    (counts : List (Option ℤ)) (f : ℕ → ℕ) (p : Option ℕ)
    → Counted counts f
    → ((a : ℕ) → f a + hit p a < 2 ^ 31)
    → ((a : ℕ) → hit p a ≤ f a)
    → (counts' : List (Option ℤ)) × (through add_ref p counts ≡ some counts')
      × Counted counts' (λ a. f a + hit p a)
unfolding through
add_ref_counts counts f none h b l = (counts, refl, λ a. rw (plus_zero (f a)) (h a))
add_ref_counts counts f (some a) h b l =
    let once = hit_self a in
    let alive = Held-alive (get_elem? counts a) (f a) (h a) (omega (arith, l a)) in
    let (y, e, k) = add_ref-Held (f a) (omega (arith, l a)) (omega (arith, b a)) in
    (
      set counts a y,
      rw (alive, e) refl,
      Counted-set counts f (λ c. f c + hit (some a) c) a (some (pos (f a))) y h alive (rw once k)
          (λ c d. rw (hit_other a c d) (plus_zero (f c))),
    )
