-- ===== src/Statistics/Laws.antt =====
-- The frames of `tr_counter` in src/statistics.h.
use virtual_gw.Common.{
  ℕ, ◌+◌, ◌-◌, ◌*◌, ◌/◌, ◌%◌, ◌^◌, ◌≤◌, ◌<◌, ◌≡◌, refl, ap, ◌∙◌, ◌⊎◌, inl, inr, List, [], ◌∷◌,
  arith, ltb, Bool-cases,
}
use virtual_gw.Common.Int.{ℤ, pos, add_int, sub_int-pos, add_int-pos, mod_int-pos}
use virtual_gw.Statistics.{add, TrCounter}

module _ (c : TrCounter) (l f t : ℕ) (size : ℤ) (el : c.last_time ≡ pos l)
    (ef : c.frame_time ≡ pos f) (pl : 0 < l) (h : l ≤ t) (k : t < 2 ^ 31) where
  add_inside : t < l + f → add c (pos t) size ≡ record c { tmp_value = add_int c.tmp_value size }
  unfolding add
  add_inside p = ground (arith, sub_int-pos t l h k)

  add_outside :
      l + f ≤ t
      → add c (pos t) size
        ≡ record c { last_time = pos (t - (t - l) % f); value = c.tmp_value; tmp_value = size }
  unfolding add
  add_outside p = ground (
    arith,
    sub_int-pos t l h k,
    mod_int-pos (t - l) f,
    sub_int-pos t ((t - l) % f) (omega arith) k,
  )

-- For a running counter and a time that does not lie before its frame's start, `add` ends with the
-- time inside the current frame, moves the frame's start by a whole number of frames, and either
-- counts into the frame, or closes it: publishes its count and starts anew.
pub add-frame :
    (c : TrCounter) (l f t : ℕ) (size : ℤ)
    → c.last_time ≡ pos l
    → c.frame_time ≡ pos f
    → 0 < l
    → 0 < f
    → l ≤ t
    → t < 2 ^ 31
    → let c' = add c (pos t) size in
      (l' : ℕ) × (c'.last_time ≡ pos l')
      × (l' ≤ t)
      × (t < l' + f)
      × (l' ≡ l + (t - l) / f * f)
      × (((l' ≡ l) × (c'.value ≡ c.value) × (c'.tmp_value ≡ add_int c.tmp_value size))
          ⊎ ((l + f ≤ t) × (c'.value ≡ c.tmp_value) × (c'.tmp_value ≡ size)))
add-frame c l f t size el ef pl pf h k = elim (Bool-cases (ltb t (l + f))) [
  | inl inside ↦
      rw (add_inside c l f t size el ef pl h k (ground arith))
        (l, el, h, ground arith, grind arith, inl (refl, refl, refl))
  | inr outside ↦
      rw (add_outside c l f t size el ef pl h k (ground arith)) (
        t - (t - l) % f,
        refl,
        omega arith,
        grind arith,
        grind arith,
        inr (ground arith, refl, refl),
      )
]

-- The counter after a list of events, each a time and a size.
abbrev pub add_all : TrCounter → List (ℕ × ℕ) → TrCounter
add_all c [] = c
add_all c ((t, s) ∷ es) = add_all (add c (pos t) (pos s)) es

abbrev pub sizes : List (ℕ × ℕ) → ℕ
sizes [] = 0
sizes ((t, s) ∷ es) = s + sizes es

-- Every event lies in the frame of `f` from `l` on.
abbrev pub InFrame : ℕ → ℕ → List (ℕ × ℕ) → Type 0
InFrame l f [] = Unit {0}
InFrame l f ((t, s) ∷ es) = ((l ≤ t) × (t < l + f)) × InFrame l f es

add_all_inside :
    (es : List (ℕ × ℕ)) (c : TrCounter) (l f n : ℕ)
    → c.last_time ≡ pos l
    → c.frame_time ≡ pos f
    → c.tmp_value ≡ pos n
    → 0 < l
    → l + f ≤ 2 ^ 31
    → InFrame l f es
    → n + sizes es < 2 ^ 31
    → add_all c es ≡ record c { tmp_value = pos (n + sizes es) }
add_all_inside [] c l f n el ef en pl k i b = ground arith
add_all_inside ((t, s) ∷ es) c l f n el ef en pl k i b =
    rw
      (
        add_inside c l f t (pos s) el ef pl i.0.0 (omega arith) i.0.1,
        en,
        add_int-pos n s (omega arith),
      )
      (add_all_inside es (record c { tmp_value = pos (n + s) }) l f (n + s) el ef refl pl k i.1
          (omega arith)
        ∙ ap (λ m. record c { tmp_value = pos m }) (omega arith))

-- The value that a counter publishes is the whole count of a frame: after events inside one frame,
-- the first event at or past the frame's end publishes what the frame began with plus the sizes of
-- those events, if these and the times fit an `int`.
pub add_publishes :
    (es : List (ℕ × ℕ)) (c : TrCounter) (l f n t : ℕ) (size : ℤ)
    → c.last_time ≡ pos l
    → c.frame_time ≡ pos f
    → c.tmp_value ≡ pos n
    → 0 < l
    → l + f ≤ t
    → t < 2 ^ 31
    → InFrame l f es
    → n + sizes es < 2 ^ 31
    → ((add_all c es).value ≡ c.value)
      × ((add (add_all c es) (pos t) size).value ≡ pos (n + sizes es))
      × ((add (add_all c es) (pos t) size).tmp_value ≡ size)
add_publishes es c l f n t size el ef en pl h k i b =
    let inside = add_all_inside es c l f n el ef en pl (omega arith) i b in
    let c' : TrCounter = record c { tmp_value = pos (n + sizes es) } in
    let out = add_outside c' l f t size el ef pl (omega arith) k h in
    rw (inside, out) (refl, refl, refl)
