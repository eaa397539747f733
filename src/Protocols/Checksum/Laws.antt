-- ===== src/Protocols/Checksum/Laws.antt =====
-- The checksums of `Protocols.Checksum` against RFC 1071.
use virtual_gw.Common.{
  ℕ, zero, suc, ◌+◌, ◌-◌, ◌*◌, ◌/◌, ◌^◌, ◌≤◌, ◌<◌, ◌≡◌, refl, sym, ap, ◌∙◌, some, List, [], ◌∷◌,
  ◌++◌, arith, ltb, if◌then◌else◌, ◌>>=◌, length, length-append,
}
use virtual_gw.Common.Words.{bytes16, Bytes}
use mathlib.Core.Path.{fun_ext}
use virtual_gw.Protocols.Checksum.{
  ipproto_udp, pseudo_hdr, segment_csum, udp_csum, add_u32, ip_csum, sum_words, finish,
}

-- Addition of 16-bit words with end-around carry.
abbrev pub ones_add : ℕ → ℕ → ℕ
ones_add a b = if ltb (a + b) 65536 then a + b else a + b - 65535

-- The one's complement sum of the words of a buffer, added to `acc`.
abbrev pub ones_sum : ℕ → List ℕ → ℕ
ones_sum acc (lo ∷ hi ∷ buf) = ones_sum (ones_add acc (lo + hi * 256)) buf
ones_sum acc rest = acc

abbrev folded : ℕ → ℕ
folded sum = 65535 - finish sum

finish_step : (s w : ℕ) → w < 65536 → s + w < 2 ^ 32 → folded (s + w) ≡ ones_add (folded s) w
unfolding finish
finish_step s w hw h = ground arith

pub finish-le : (s : ℕ) → finish s ≤ 65535
unfolding finish
finish-le s = omega arith

-- The sum of the words as plain numbers.
abbrev pub word_sum : List ℕ → ℕ
word_sum (lo ∷ hi ∷ buf) = lo + hi * 256 + word_sum buf
word_sum rest = 0

pub sum_words-eq-add :
    (n : ℕ) (buf : List ℕ) (s : ℕ)
    → length buf ≡ 2 * n
    → s + word_sum buf < 2 ^ 32
    → sum_words buf n s ≡ some (s + word_sum buf)
unfolding sum_words
sum_words-eq-add zero [] s h k = ground arith
sum_words-eq-add zero (a ∷ b) s h k = absurd (omega arith)
sum_words-eq-add (suc n) [] s h k = absurd (omega arith)
sum_words-eq-add (suc n) (a ∷ []) s h k = absurd (omega arith)
sum_words-eq-add (suc n) (a ∷ b ∷ buf) s h k =
    ground (arith, sum_words-eq-add n buf (add_u32 s (a + b * 256)))

folded-ones_sum :
    (n : ℕ) (buf : List ℕ) (s : ℕ)
    → Bytes buf
    → length buf ≡ 2 * n
    → s + 65535 * n < 2 ^ 32
    → (folded (s + word_sum buf) ≡ ones_sum (folded s) buf) × (s + word_sum buf < 2 ^ 32)
folded-ones_sum zero [] s b h k = (ap (λ k. folded k) (omega arith), omega arith)
folded-ones_sum zero (x ∷ y) s b h k = absurd (omega arith)
folded-ones_sum (suc n) [] s b h k = absurd (omega arith)
folded-ones_sum (suc n) (x ∷ []) s b h k = absurd (omega arith)
folded-ones_sum (suc n) (x ∷ y ∷ buf) s b h k =
    let ih = folded-ones_sum n buf (s + (x + y * 256)) b.1.1 (omega arith) (omega arith) in
    (
      rw (← finish_step s (x + y * 256) (omega arith) (omega arith))
          (ap (λ k. folded k) (omega arith) ∙ ih.0),
      omega arith,
    )

-- `ip_csum` of a buffer of bytes with an even length up to 131072 is the complement of the one's
-- complement sum of its 16-bit words: the 32-bit sum and its two foldings lose no carry.
pub ip_csum-eq-ones_sum :
    (n : ℕ) (buf : List ℕ)
    → Bytes buf
    → length buf ≡ 2 * n
    → n ≤ 65536
    → ip_csum buf (2 * n) ≡ some (65535 - ones_sum 0 buf)
unfolding ip_csum
ip_csum-eq-ones_sum n buf b h k =
    let p = folded-ones_sum n buf 0 b h (omega arith) in
    let half : 2 * n / 2 ≡ n = omega arith in
    let zero_folded : folded 0 ≡ 0 = unfold finish in refl in
    rw (half, sum_words-eq-add n buf 0 h p.1)
      (ap (λ k. some k)
        (omega (
          arith,
          p.0,
          finish-le (0 + word_sum buf),
          zero_folded,
          ap (λ k. ones_sum k buf) zero_folded,
        )))

-- The sum over a buffer made of two parts, the first of whole words.
pub word_sum-append :
    (n : ℕ) (pre post : List ℕ)
    → length pre ≡ 2 * n
    → word_sum (pre ++ post) ≡ word_sum pre + word_sum post
word_sum-append zero [] post h = omega arith
word_sum-append zero (x ∷ pre) post h = absurd (omega arith)
word_sum-append (suc n) [] post h = absurd (omega arith)
word_sum-append (suc n) (x ∷ []) post h = absurd (omega arith)
word_sum-append (suc n) (x ∷ y ∷ pre) post h =
    omega (arith, word_sum-append n pre post (omega arith))

pub finish_closes : (s : ℕ) → s + 65535 < 2 ^ 32 → finish (s + finish s) ≡ 0
unfolding finish
finish_closes s h = omega arith

-- A checksum verifies: where `ip_csum` of a buffer whose checksum field is zero is `c`, `ip_csum` of
-- the buffer with `c` stored in that field is 0. The field stands at an even offset, the length is
-- even, and the sum of the words leaves room for one more below 2 ^ 32.
pub ip_csum_verifies :
    (n m c : ℕ) (pre post : List ℕ)
    → length pre ≡ 2 * n
    → length post ≡ 2 * m
    → word_sum pre + word_sum post + 65535 < 2 ^ 32
    → ip_csum (pre ++ 0 ∷ 0 ∷ post) (2 * (n + 1 + m)) ≡ some c
    → ip_csum (pre ++ (bytes16 c ++ post)) (2 * (n + 1 + m)) ≡ some 0
unfolding ip_csum
ip_csum_verifies n m c pre post hp hq h e =
    let half : 2 * (n + 1 + m) / 2 ≡ n + 1 + m = omega arith in
    let len0 = length-append pre (0 ∷ 0 ∷ post) in
    let len1 = length-append pre (bytes16 c ++ post) in
    let s0 = word_sum-append n pre (0 ∷ 0 ∷ post) hp in
    let s1 = word_sum-append n pre (bytes16 c ++ post) hp in
    ground (
      arith,
      half,
      sum_words-eq-add (n + 1 + m) (pre ++ 0 ∷ 0 ∷ post) 0 (omega arith) (omega arith),
      sum_words-eq-add (n + 1 + m) (pre ++ (bytes16 c ++ post)) 0,
      finish_closes (word_sum pre + word_sum post) h,
      finish-le (word_sum pre + word_sum post),
    )

sum_words-append :
    (n : ℕ) (xs ys : List ℕ) (s : ℕ)
    → length xs ≡ 2 * n
    → sum_words (xs ++ ys) n s ≡ sum_words xs n s
unfolding sum_words
sum_words-append zero xs ys s h = ground arith
sum_words-append (suc n) [] ys s h = absurd (omega arith)
sum_words-append (suc n) (a ∷ []) ys s h = absurd (omega arith)
sum_words-append (suc n) (a ∷ b ∷ xs) ys s h =
    sum_words-append n xs ys (add_u32 s (a + b * 256)) (omega arith)

-- The checksum of a UDP segment of odd length does not depend on its last byte, which RFC 768 has
-- padded with a zero byte and summed.
pub udp_csum_ignores_odd_byte :
    (n : ℕ) (xs rest : List ℕ) (b c saddr daddr : ℕ)
    → length xs ≡ 2 * n
    → udp_csum (xs ++ b ∷ rest) (2 * n + 1) saddr daddr
      ≡ udp_csum (xs ++ c ∷ rest) (2 * n + 1) saddr daddr
unfolding udp_csum segment_csum
udp_csum_ignores_odd_byte n xs rest b c saddr daddr h =
    let half : (2 * n + 1) / 2 ≡ n = omega arith in
    rw half (
      ap
        (λ f. sum_words (pseudo_hdr saddr daddr ipproto_udp (2 * n + 1)) 6 0 >>= λ s.
          f s >>= λ t. some (finish t))
        (fun_ext
          (λ s. sum_words-append n xs (b ∷ rest) s h ∙ sym (sum_words-append n xs (c ∷ rest) s h))))
