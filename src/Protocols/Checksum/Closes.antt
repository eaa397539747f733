-- ===== src/Protocols/Checksum/Closes.antt =====
-- Checksums of src/protocols that are stored where they are summed: what a receiver computes.
use virtual_gw.Common.{
  ℕ, zero, suc, ◌+◌, ◌*◌, ◌/◌, ◌^◌, ◌≤◌, ◌<◌, ◌≡◌, refl, ap, ◌∙◌, some, List, [], ◌∷◌, ◌++◌, arith,
  length, length-append,
}
use virtual_gw.Common.Words.{bytes16, Bytes}
use virtual_gw.Protocols.Checksum.{sum_words, finish, ip_csum, pseudo_hdr, segment_csum, udp_csum}
use virtual_gw.Protocols.Ip.{ipproto_udp}
use virtual_gw.Protocols.Checksum.Laws.{
  word_sum, sum_words-eq-add, word_sum-append, finish_closes, finish-le,
}

-- A buffer of `2 * n` bytes.
pub word_sum-le : (n : ℕ) (buf : List ℕ) → Bytes buf → length buf ≡ 2 * n → word_sum buf ≤ 65535 * n
word_sum-le zero [] b h = omega arith
word_sum-le zero (x ∷ buf) b h = absurd (omega arith)
word_sum-le (suc n) [] b h = absurd (omega arith)
word_sum-le (suc n) (x ∷ []) b h = absurd (omega arith)
word_sum-le (suc n) (x ∷ y ∷ buf) b h = omega (arith, word_sum-le n buf b.1.1 (omega arith))

-- The sum of a buffer with a word `w` in the middle.
sum_with :
    (n m w s : ℕ) (pre post : List ℕ)
    → length pre ≡ 2 * n
    → length post ≡ 2 * m
    → w < 65536
    → s + word_sum pre + w + word_sum post < 2 ^ 32
    → sum_words (pre ++ (bytes16 w ++ post)) (n + 1 + m) s
      ≡ some (s + word_sum pre + w + word_sum post)
sum_with n m w s pre post hp hq hw h =
    let len = length-append pre (bytes16 w ++ post) in
    let sum = word_sum-append n pre (bytes16 w ++ post) hp in
    sum_words-eq-add (n + 1 + m) (pre ++ (bytes16 w ++ post)) s (omega arith) (omega arith)
    ∙ ap (λ k. some k) (omega arith)

-- A segment with its checksum in it sums to a checksum of 0, where the sum leaves room for one word
-- more below 2 ^ 32.
pub udp_csum_closes :
    (n m k saddr daddr : ℕ) (pre post : List ℕ)
    → length pre ≡ 2 * n
    → length post ≡ 2 * m
    → k ≡ n + 1 + m
    → word_sum (pseudo_hdr saddr daddr ipproto_udp (2 * k)) + word_sum pre + word_sum post + 65535
      < 2 ^ 32
    → (c : ℕ) × (udp_csum (pre ++ (bytes16 0 ++ post)) (2 * k) saddr daddr ≡ some c)
      × (udp_csum (pre ++ (bytes16 c ++ post)) (2 * k) saddr daddr ≡ some 0)
unfolding udp_csum segment_csum
udp_csum_closes n m k saddr daddr pre post hp hq e h =
    let half : 2 * k / 2 ≡ n + 1 + m = omega arith in
    let p = word_sum (pseudo_hdr saddr daddr ipproto_udp (2 * k)) in
    let c = finish (p + word_sum pre + 0 + word_sum post) in
    let bound = finish-le (p + word_sum pre + 0 + word_sum post) in
    let first : sum_words (pseudo_hdr saddr daddr ipproto_udp (2 * k)) 6 0 ≡ some p =
      sum_words-eq-add 6 (pseudo_hdr saddr daddr ipproto_udp (2 * k)) 0 refl (omega arith)
      ∙ ap (λ x. some x) (omega arith) in
    (
      c,
      rw (first, half, sum_with n m 0 p pre post hp hq (omega arith) (omega arith)) refl,
      rw (first, half, sum_with n m c p pre post hp hq (omega arith) (omega arith))
          (ap (λ x. some x)
            (ap finish (omega arith)
              ∙ finish_closes (p + word_sum pre + 0 + word_sum post) (omega arith))),
    )

-- The same for the checksum of an IP header, in words of the header itself.
pub ip_csum_closes :
    (n m k : ℕ) (pre post : List ℕ)
    → length pre ≡ 2 * n
    → length post ≡ 2 * m
    → k ≡ n + 1 + m
    → word_sum pre + word_sum post + 65535 < 2 ^ 32
    → (c : ℕ) × (ip_csum (pre ++ (bytes16 0 ++ post)) (2 * k) ≡ some c)
      × (ip_csum (pre ++ (bytes16 c ++ post)) (2 * k) ≡ some 0)
unfolding ip_csum
ip_csum_closes n m k pre post hp hq e h =
    let half : 2 * k / 2 ≡ n + 1 + m = omega arith in
    let c = finish (0 + word_sum pre + 0 + word_sum post) in
    let bound = finish-le (0 + word_sum pre + 0 + word_sum post) in
    (
      c,
      rw (half, sum_with n m 0 0 pre post hp hq (omega arith) (omega arith)) refl,
      rw (half, sum_with n m c 0 pre post hp hq (omega arith) (omega arith))
          (ap (λ x. some x)
            (ap finish (omega arith)
              ∙ finish_closes (0 + word_sum pre + 0 + word_sum post) (omega arith))),
    )
