-- ===== src/Dhcp/Memory.antt =====
-- Reads of a memory whose part from some place on is known, as src/dhcp_client.h reads options.
use virtual_gw.Common.{
  ℕ, zero, suc, ◌+◌, ◌/◌, ◌%◌, ◌^◌, ◌≤◌, ◌<◌, ◌≡◌, refl, ap, ◌∙◌, none, some, List, [], ◌∷◌, ◌++◌,
  arith, length, get_elem?, length-append,
}
use virtual_gw.Common.Words.{bytes32, read8, read32, bytes32_inv}

-- The memory from `i` on reads as `xs`, as far as `xs` goes.
abbrev pub At : List ℕ → ℕ → List ℕ → Type 0
At m i xs = (k : ℕ) → k < length xs → read8 m (i + k) ≡ read8 xs k

get_elem?-append-left :
    (xs ys : List ℕ) (k : ℕ) → k < length xs → get_elem? (xs ++ ys) k ≡ get_elem? xs k
get_elem?-append-left [] ys k h = absurd (omega arith)
get_elem?-append-left (x ∷ xs) ys zero h = refl
get_elem?-append-left (x ∷ xs) ys (suc k) h = get_elem?-append-left xs ys k (omega arith)

get_elem?-append-right :
    (xs ys : List ℕ) (j k : ℕ) → j ≡ length xs + k → get_elem? (xs ++ ys) j ≡ get_elem? ys k
get_elem?-append-right [] ys j k e = ap (λ i. get_elem? ys i) (omega arith)
get_elem?-append-right (x ∷ xs) ys zero k e = absurd (omega arith)
get_elem?-append-right (x ∷ xs) ys (suc j) k e = get_elem?-append-right xs ys j k (omega arith)

pub At-left : (m : List ℕ) (i : ℕ) (xs ys : List ℕ) → At m i (xs ++ ys) → At m i xs
At-left m i xs ys h k b = h k (omega (arith, length-append xs ys)) ∙ get_elem?-append-left xs ys k b

pub At-right :
    (m : List ℕ) (i j : ℕ) (xs ys : List ℕ) → j ≡ i + length xs → At m i (xs ++ ys) → At m j ys
At-right m i j xs ys e h k b =
    ap (λ n. read8 m n) (omega arith)
    ∙ h (length xs + k) (omega (arith, length-append xs ys))
    ∙ get_elem?-append-right xs ys (length xs + k) k refl

-- A read at an index `j` that is `i + k`.
pub At-read8 :
    (m : List ℕ) (i j k x : ℕ) (xs : List ℕ)
    → At m i xs
    → j ≡ i + k
    → read8 xs k ≡ some x
    → k < length xs
    → read8 m j ≡ some x
At-read8 m i j k x xs a e r b = ap (λ n. read8 m n) e ∙ a k b ∙ r

pub At-read32 :
    (m : List ℕ) (i j w : ℕ) (pre xs : List ℕ)
    → w < 2 ^ 32
    → At m i (pre ++ (bytes32 w ++ xs))
    → j ≡ i + length pre
    → read32 m j ≡ some w
unfolding read32
At-read32 m i j w pre xs h a e =
    let a' = At-right m i j pre (bytes32 w ++ xs) e a in
    rw
      (
        At-read8 m j j 0 (w % 256) (bytes32 w ++ xs) a' (omega arith) refl (omega arith),
        At-read8 m j (j + 1) 1 (w / 256 % 256) (bytes32 w ++ xs) a' refl refl (omega arith),
        At-read8 m j (j + 2) 2 (w / 65536 % 256) (bytes32 w ++ xs) a' refl refl (omega arith),
        At-read8 m j (j + 3) 3 (w / 16777216 % 256) (bytes32 w ++ xs) a' refl refl (omega arith),
      )
      (ap (λ n. some n) (bytes32_inv w h))

pub At-start : (xs ys : List ℕ) → At (xs ++ ys) 0 xs
At-start xs ys k b = ap (λ n. read8 (xs ++ ys) n) (omega arith) ∙ get_elem?-append-left xs ys k b

pub read8_out : (m : List ℕ) (i : ℕ) → length m ≤ i → read8 m i ≡ none
read8_out [] i h = refl
read8_out (x ∷ m) zero h = absurd (omega arith)
read8_out (x ∷ m) (suc i) h = read8_out m i (omega arith)
