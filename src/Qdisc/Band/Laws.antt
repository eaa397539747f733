-- ===== src/Qdisc/Band/Laws.antt =====
-- The token bucket of `band_qdisc` in src/nqueue.h.
use virtual_gw.Common.{
  ℕ, ◌+◌, ◌-◌, ◌*◌, ◌/◌, ◌^◌, ◌≤◌, ◌<◌, ◌≡◌, refl, ◌⊎◌, inl, inr, Bool, true, false, none, some,
  arith, Bool-cases, Option-cases, length,
}
use virtual_gw.Common.Int.{
  ℤ, pos, negsuc, ◌-ℤ◌, ◌*ℤ◌, ◌≤ℤ◌, ◌<ℤ◌, ltb_ℤ, wrap, add_int, sub_int, mul_int, div_int, abs_int,
  min_int, sub_int-pos, mul_int-pos, div_int-pos, abs_int-pos,
}
use virtual_gw.Qdisc.Band.Late.{Cut, drop_late-Cut}
use virtual_gw.Qdisc.Band.{
  can_pop, front, Npacket, PacketsRawQueue, refill, cost, charge, delta_traffic, BandQdisc,
}

-- The tokens earned are the time by the rate, if that product fits an `int`.
pub delta_traffic_exact :
    (d : BandQdisc) (l t r : ℕ)
    → d.last_ts ≡ pos l
    → d.rate ≡ pos r
    → l ≤ t
    → t < 2 ^ 31
    → (t - l) * r < 2 ^ 31
    → delta_traffic d (pos t) ≡ pos ((t - l) * r / 1000)
unfolding delta_traffic
delta_traffic_exact d l t r el er h k b =
    rw (el, er, sub_int-pos t l h k, mul_int-pos (t - l) r b, div_int-pos ((t - l) * r) 999 b)
      (abs_int-pos ((t - l) * r / 1000))

mul_int_over :
    (a b : ℕ)
    → 2 ^ 31 ≤ a * b
    → a * b < 2 ^ 32
    → mul_int (pos a) (pos b) ≡ negsuc (2 ^ 32 - 1 - a * b)
unfolding wrap ◌*ℤ◌
mul_int_over a b h k = ground arith

abs_over :
    (n : ℕ) → 0 < n → n ≤ 2 ^ 31 → abs_int (div_int (negsuc (n - 1)) (pos 1000)) ≡ pos (n / 1000)
unfolding wrap abs_int div_int ◌-ℤ◌
abs_over n p h = ground arith

-- Where that product does not fit, it wraps, and a longer wait earns less: for a product from 2 ^ 31
-- up to 2 ^ 32 the tokens are what the product lacks of 2 ^ 32, by 1000.
pub delta_traffic_overflows :
    (d : BandQdisc) (l t r : ℕ)
    → d.last_ts ≡ pos l
    → d.rate ≡ pos r
    → l ≤ t
    → t < 2 ^ 31
    → 2 ^ 31 ≤ (t - l) * r
    → (t - l) * r < 2 ^ 32
    → delta_traffic d (pos t) ≡ pos ((2 ^ 32 - (t - l) * r) / 1000)
unfolding delta_traffic
delta_traffic_overflows d l t r el er h k lo hi =
    let e : 2 ^ 32 - 1 - (t - l) * r ≡ 2 ^ 32 - (t - l) * r - 1 = omega arith in
    rw (el, er, sub_int-pos t l h k, mul_int_over (t - l) r lo hi, e)
      (abs_over (2 ^ 32 - (t - l) * r) (omega arith) (omega arith))

-- The tokens there are at a call: those that were left and those of the time since the last call,
-- `abs(delta_t * rate /1000)`, up to `burst`.
abbrev pub tokens : BandQdisc → ℤ → ℤ
tokens d time =
    min_int d.burst
      (add_int d.quota (abs_int (div_int (mul_int (sub_int time d.last_ts) d.rate) (pos 1000))))

-- What a call makes of a bucket: the settings stay, the time of the call is kept, and the late
-- packets in front are gone. It answers yes where a packet is then in front and there are tokens, and
-- takes its cost; else the tokens are kept.
pub record Charged (d : BandQdisc) (time : ℤ) (q : PacketsRawQueue) (goes : Bool) (d' : BandQdisc)
    (q' : PacketsRawQueue) : Type 0 where
  pub settings : (d'.rate ≡ d.rate) × (d'.burst ≡ d.burst) × (d'.max_delay ≡ d.max_delay)
  pub stamp : d'.last_ts ≡ time
  pub cut : Cut d time q q'
  pub outcome :
      ((goes ≡ true)
        × (p : Npacket) × (front q' ≡ some p)
        × (pos 0 <ℤ tokens d time)
        × (d'.quota ≡ sub_int (tokens d time) (cost p)))
      ⊎ ((goes ≡ false)
          × (d'.quota ≡ tokens d time)
          × ((front q' ≡ none) ⊎ (tokens d time ≤ℤ pos 0)))

-- The late packets do not depend on the quota or the time of the last call.
Cut-refill :
    (d : BandQdisc) (time : ℤ) (q q' : PacketsRawQueue)
    → Cut (refill d time) time q q'
    → Cut d time q q'
unfolding refill
Cut-refill d time q q' c = record { k = c.k; kept = c.kept; late = c.late; ends = c.ends }

charge-Charged :
    (d : BandQdisc) (time : ℤ) (q q' : PacketsRawQueue)
    → Cut d time q q'
    → let paid = charge (refill d time) q' in Charged d time q paid.0 paid.1 q'
unfolding charge refill delta_traffic
charge-Charged d time q q' c = elim (Option-cases (front q')) [
  | inl nothing ↦
      rw (nothing, charge)
        (record {
          settings = (refl, refl, refl);
          stamp = refl;
          cut = c;
          outcome = inr (refl, refl, inl nothing);
        })
  | inr (p, e) ↦ elim (Bool-cases (ltb_ℤ (pos 0) (tokens d time))) [
    | inl enough ↦
        rw (e, enough, charge)
          (record {
            settings = (refl, refl, refl);
            stamp = refl;
            cut = c;
            outcome = inl (refl, p, e, ground arith, refl);
          })
    | inr too_few ↦
        rw (e, too_few, charge)
          (record {
            settings = (refl, refl, refl);
            stamp = refl;
            cut = c;
            outcome = inr (refl, refl, inr (ground arith));
          })
  ]
]

-- `can_pop` of a bucket that limits always ends. It keeps the settings and the time of the call, drops
-- exactly the packets in front that have waited for more than `max_delay`, or none where that is 0, and
-- answers yes exactly where a packet is then in front and there are tokens: those that were left and
-- those of the time since the last call, up to `burst`. With a yes it takes the packet's cost.
pub can_pop_charges :
    (d : BandQdisc) (time : ℤ) (q : PacketsRawQueue)
    → pos 0 <ℤ d.rate
    → (goes : Bool) × (d' : BandQdisc) × (q' : PacketsRawQueue) × (can_pop d time q
        ≡ some (goes, d', q'))
      × Charged d time q goes d' q'
unfolding can_pop
can_pop_charges d time q h =
    let (q', e, c) = drop_late-Cut (length q.packets + 1) (refill d time) time q (omega arith) in
    let paid = charge (refill d time) q' in
    (paid.0, paid.1, q', ground (arith, e), charge-Charged d time q q' (Cut-refill d time q q' c))
