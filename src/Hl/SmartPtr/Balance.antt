-- ===== src/Hl/SmartPtr/Balance.antt =====
-- What the operations of `smart_ptr` in src/hl/smart_ptr.h keep.
use virtual_gw.Common.{
  ℕ, zero, suc, ◌+◌, ◌-◌, ◌^◌, ◌≤◌, ◌<◌, ◌≡◌, refl, sym, ◌∙◌, inl, inr, false, Option, none, some,
  List, [], ◌∷◌, ◌++◌, arith, ◌==◌, ==_iff, Bool-cases, length, get_elem?, set,
}
use virtual_gw.Common.Int.{ℤ, pos, add_int-pos}
use mathlib.Core.Path.{subst}
use virtual_gw.Hl.SmartPtr.{add_ref, through, make, copy, assign, destroy, Store}
use virtual_gw.Hl.SmartPtr.Cells.{set-length, elem_end, elem_before, elem_past, set_end}
use virtual_gw.Hl.SmartPtr.Counts.{
  hit, refs, Held, Counted, IsBalanced, get_elem?-set-other, hit_self, hit_other, plus_zero,
  refs-set, refs-append, release_counts, add_ref_counts,
}

-- The operations, as values.
pub data Op : Type 0 where
  by_make : Op
  by_copy : ℕ → Op
  by_assign : ℕ → ℕ → Op
  by_destroy : ℕ → Op

unfoldable pub perform : Op → Store → Option Store
perform by_make s = make s
perform (by_copy j) s = copy j s
perform (by_assign i j) s = assign i j s
perform (by_destroy i) s = destroy i s

-- The variables are there, fewer than 2 ^ 31 of them with the new one, and none is assigned to
-- itself.
abbrev pub IsSafe : Op → Store → Type 0
IsSafe by_make s = length s.pointers + 1 < 2 ^ 31
IsSafe (by_copy j) s = (j < length s.pointers) × (length s.pointers + 1 < 2 ^ 31)
IsSafe (by_assign i j) s =
    (i < length s.pointers)
    × (j < length s.pointers)
    × ((i == j) ≡ false)
    × (length s.pointers < 2 ^ 31)
IsSafe (by_destroy i) s = (i < length s.pointers) × (length s.pointers < 2 ^ 31)

hit_le : (p : Option ℕ) (a : ℕ) → hit p a ≤ 1
hit_le none a = omega arith
hit_le (some b) a = ground arith

refs_le : (a : ℕ) (ps : List (Option ℕ)) → refs a ps ≤ length ps
refs_le a [] = omega arith
refs_le a (p ∷ ps) = omega (arith, refs_le a ps, hit_le p a)

there : (i : ℕ) (ps : List (Option ℕ)) → i < length ps → (p : Option ℕ) × (get_elem? ps i ≡ some p)
there i [] h = absurd (omega arith)
there zero (p ∷ ps) h = (p, refl)
there (suc i) (p ∷ ps) h = there i ps (omega arith)

hit-refs :
    (a i : ℕ) (ps : List (Option ℕ)) (p : Option ℕ) → get_elem? ps i ≡ some p → hit p a ≤ refs a ps
hit-refs a i ps p h = omega (arith, refs-set a i ps p none h)

two_hits :
    (a i j : ℕ) (ps : List (Option ℕ)) (p r : Option ℕ)
    → get_elem? ps i ≡ some p
    → get_elem? ps j ≡ some r
    → (i == j) ≡ false
    → hit p a + hit r a ≤ refs a ps
two_hits a i j ps p r hi hj ne = omega (
  arith,
  refs-set a i ps p none hi,
  hit-refs a j (set ps i none) r (get_elem?-set-other ps i j none ne ∙ hj),
)

Counted-same :
    (counts : List (Option ℤ)) (f g : ℕ → ℕ)
    → ((a : ℕ) → f a ≡ g a)
    → Counted counts f
    → Counted counts g
Counted-same counts f g e h a = subst (Held (get_elem? counts a)) (e a) (h a)

assign-IsBalanced :
    (i j : ℕ) (s : Store)
    → IsBalanced s
    → IsSafe (by_assign i j) s
    → (s' : Store) × (assign i j s ≡ some s') × IsBalanced s'
unfolding assign
assign-IsBalanced i j s h (li, lj, ne, small) =
    let (p, ep) = there i s.pointers li in
    let (r, er) = there j s.pointers lj in
    let two : (a : ℕ) → hit p a + hit r a ≤ refs a s.pointers =
      λ a. two_hits a i j s.pointers p r ep er ne in
    let (c1, e1, k1) =
      release_counts s.counts (λ a. refs a s.pointers) p h
        (λ a. omega (arith, refs_le a s.pointers)) (λ a. omega (arith, two a)) in
    let (c2, e2, k2) =
      add_ref_counts c1 (λ a. refs a s.pointers - hit p a) r k1
        (λ a. omega (
          arith,
          refs_le a (set s.pointers i r),
          set-length s.pointers i r,
          refs-set a i s.pointers p r ep,
          two a,
        ))
        (λ a. omega (arith, two a)) in
    (
      record { counts = c2; pointers = set s.pointers i r },
      rw (ep, er, e1, e2) refl,
      Counted-same c2 (λ a. refs a s.pointers - hit p a + hit r a)
          (λ a. refs a (set s.pointers i r))
          (λ a. omega (arith, refs-set a i s.pointers p r ep, two a)) k2,
    )

copy-IsBalanced :
    (j : ℕ) (s : Store)
    → IsBalanced s
    → IsSafe (by_copy j) s
    → (s' : Store) × (copy j s ≡ some s') × IsBalanced s'
unfolding copy
copy-IsBalanced j s h (lj, small) =
    let (r, er) = there j s.pointers lj in
    let (c, e, k) =
      add_ref_counts s.counts (λ a. refs a s.pointers) r h
        (λ a. omega (arith, refs_le a s.pointers, hit_le r a))
        (λ a. hit-refs a j s.pointers r er) in
    (
      record { counts = c; pointers = s.pointers ++ r ∷ [] },
      rw (er, e) refl,
      Counted-same c (λ a. refs a s.pointers + hit r a) (λ a. refs a (s.pointers ++ r ∷ []))
          (λ a. sym (refs-append a s.pointers r)) k,
    )

destroy-IsBalanced :
    (i : ℕ) (s : Store)
    → IsBalanced s
    → IsSafe (by_destroy i) s
    → (s' : Store) × (destroy i s ≡ some s') × IsBalanced s'
unfolding destroy
destroy-IsBalanced i s h (li, small) =
    let (p, ep) = there i s.pointers li in
    let (c, e, k) =
      release_counts s.counts (λ a. refs a s.pointers) p h
        (λ a. omega (arith, refs_le a s.pointers)) (λ a. hit-refs a i s.pointers p ep) in
    (
      record { counts = c; pointers = set s.pointers i none },
      rw (ep, e) refl,
      Counted-same c (λ a. refs a s.pointers - hit p a) (λ a. refs a (set s.pointers i none))
          (λ a. omega (arith, refs-set a i s.pointers p none ep, hit-refs a i s.pointers p ep)) k,
    )

add_ref_new : add_ref (some (some (pos 0))) ≡ some (some (pos 1))
unfolding add_ref
add_ref_new = rw (add_int-pos 0 1 (omega arith)) refl

make-IsBalanced : (s : Store) → IsBalanced s → (s' : Store) × (make s ≡ some s') × IsBalanced s'
unfolding make through
make-IsBalanced s h =
    let n = length s.counts in
    let none_yet : refs n s.pointers ≡ 0 =
      subst (λ o. Held o (refs n s.pointers)) (elem_past s.counts) (h n) in
    (
      record { counts = s.counts ++ some (pos 1) ∷ []; pointers = s.pointers ++ some n ∷ [] },
      rw
          (
            elem_end s.counts (some (pos 0)),
            add_ref_new,
            set_end s.counts (some (pos 0)) (some (pos 1)),
          )
          refl,
      λ b. elim (Bool-cases (n == b)) [
        | inl e ↦
            subst
              (λ c.
                Held (get_elem? (s.counts ++ some (pos 1) ∷ []) c)
                  (refs c (s.pointers ++ some n ∷ [])))
              ((==_iff n b).0 e)
              (rw
                (
                  elem_end s.counts (some (pos 1)),
                  refs-append n s.pointers (some n),
                  hit_self n,
                  none_yet,
                )
                (refl, omega arith))
        | inr e ↦
            rw
              (
                elem_before s.counts (some (pos 1)) b e,
                refs-append b s.pointers (some n),
                hit_other n b e,
                plus_zero (refs b s.pointers),
              )
              (h b)
      ],
    )

-- Any operation on variables that are there, fewer than 2 ^ 31, none assigned to itself, where the
-- counts of the objects are the numbers of their pointers and the objects without are deleted:
-- nothing deleted is used, and the counts go on to be so.
pub perform-IsBalanced :
    (op : Op) (s : Store)
    → IsBalanced s
    → IsSafe op s
    → (s' : Store) × (perform op s ≡ some s') × IsBalanced s'
unfolding perform
perform-IsBalanced by_make s h safe = make-IsBalanced s h
perform-IsBalanced (by_copy j) s h safe = copy-IsBalanced j s h safe
perform-IsBalanced (by_assign i j) s h safe = assign-IsBalanced i j s h safe
perform-IsBalanced (by_destroy i) s h safe = destroy-IsBalanced i s h safe
