-- ===== src/Qdisc/Band/Steps.antt =====
-- What one call of `can_pop` does to a token bucket of src/nqueue.h that limits.
use virtual_gw.Common.{
  ℕ, ◌+◌, ◌-◌, ◌*◌, ◌/◌, ◌^◌, ◌≤◌, ◌<◌, ◌≡◌, refl, sym, ap, ◌∙◌, inl, inr, Bool, true, false, some,
  arith, some_has,
}
use virtual_gw.Common.Int.{
  ℤ, pos, pos_part, neg_part, ◌+ℤ◌, ◌-ℤ◌, ◌≤ℤ◌, ◌<ℤ◌, +ℤ_parts, -ℤ_parts, InInt, wrap-InInt,
  sub_int, mul_int, div_int, abs_int, sub_int-pos, mul_int-pos, div_int-pos, abs_int-pos,
  add_int-le, sub_int-le,
}
use virtual_gw.Packets.{Npacket, PacketsRawQueue, front, pop}
use virtual_gw.Qdisc.Band.{cost, can_pop, BandQdisc}
use virtual_gw.Qdisc.Band.Laws.{tokens, Charged, can_pop_charges}

-- A bucket of the rate `r` whose last call was at `now`, with no more than `burst` tokens.
pub record Ready (r now : ℕ) (d : BandQdisc) : Type 0 where
  pub quota_int : InInt d.quota
  pub burst_int : InInt d.burst
  pub rate_is : d.rate ≡ pos r
  pub stamp_is : d.last_ts ≡ pos now
  pub full : d.quota ≤ℤ d.burst

-- The tokens at a call are no more than `burst`, and no more than what was left and what the wait
-- earns, in thousandths.
pub tokens-le :
    (r now wait : ℕ) (d : BandQdisc)
    → Ready r now d
    → now + wait < 2 ^ 31
    → wait * r < 2 ^ 31
    → let t = tokens d (pos (now + wait)) in
      InInt t
      × (t ≤ℤ d.burst)
      × (1000 * pos_part t + 1000 * neg_part d.quota
          ≤ 1000 * pos_part d.quota + wait * r + 1000 * neg_part t)
tokens-le r now wait d v h k =
    let same : now + wait - now ≡ wait = omega arith in
    let earned : abs_int
          (div_int (mul_int (sub_int (pos (now + wait)) d.last_ts) d.rate) (pos 1000))
        ≡ pos (wait * r / 1000) =
      rw
        (
          v.stamp_is,
          v.rate_is,
          sub_int-pos (now + wait) now (omega arith) h,
          same,
          mul_int-pos wait r k,
          div_int-pos (wait * r) 999 k,
        )
        (abs_int-pos (wait * r / 1000)) in
    let sum = d.quota +ℤ pos (wait * r / 1000) in
    let parts = +ℤ_parts d.quota (pos (wait * r / 1000)) in
    let le = add_int-le d.quota (pos (wait * r / 1000)) v.quota_int refl in
    rw earned (ground (arith, le, parts, wrap-InInt sum, v.burst_int))

pub can_pop-Charged :
    (r now time : ℕ) (d : BandQdisc) (q : PacketsRawQueue) (x : Bool × BandQdisc × PacketsRawQueue)
    → 0 < r
    → Ready r now d
    → can_pop d (pos time) q ≡ some x
    → Charged d (pos time) q x.0 x.1 x.2
can_pop-Charged r now time d q x h v e =
    let (goes, d', q', e', c) = can_pop_charges d (pos time) q (ground (arith, v.rate_is)) in
    some_has (λ z. Charged d (pos time) q z.0 z.1 z.2) (sym e' ∙ e) c

-- A bucket after a call, with `quota` no more than `burst`.
Ready-Charged :
    (r now time : ℕ) (d d1 : BandQdisc) (q q1 : PacketsRawQueue) (goes : Bool)
    → Ready r now d
    → Charged d (pos time) q goes d1 q1
    → InInt d1.quota
    → d1.quota ≤ℤ d.burst
    → Ready r time d1
Ready-Charged r now time d d1 q q1 goes v c i le = record {
  quota_int = i;
  burst_int = rw c.settings.1 v.burst_int;
  rate_is = c.settings.0 ∙ v.rate_is;
  stamp_is = c.stamp;
  full = rw c.settings.1 le;
}

cost-InInt : (p : Npacket) → InInt (cost p)
cost-InInt p = ground arith

-- The tokens left when a packet goes.
paid_bounds :
    (t burst : ℤ) (p : Npacket)
    → InInt t
    → pos 0 <ℤ t
    → t ≤ℤ burst
    → pos 0 ≤ℤ cost p
    → (sub_int t (cost p) ≤ℤ burst) × (cost p +ℤ sub_int t (cost p) ≤ℤ t)
paid_bounds t burst p i enough le gain =
    let less = sub_int-le t (cost p) enough (cost-InInt p) in
    let minus = -ℤ_parts t (cost p) in
    (omega (arith, less, minus), omega (arith, less, minus, +ℤ_parts (cost p) (sub_int t (cost p))))

pub sends_step :
    (r now wait : ℕ) (d d1 : BandQdisc) (q q1 q2 : PacketsRawQueue) (p : Npacket)
    → 0 < r
    → Ready r now d
    → now + wait < 2 ^ 31
    → wait * r < 2 ^ 31
    → can_pop d (pos (now + wait)) q ≡ some (true, d1, q1)
    → pop q1 (pos (now + wait)) ≡ some (p, q2)
    → pos 0 ≤ℤ cost p
    → let t = tokens d (pos (now + wait)) in
      Ready r (now + wait) d1 × (cost p +ℤ d1.quota ≤ℤ t) × (pos 0 <ℤ t)
sends_step r now wait d d1 q q1 q2 p h v k l e ep gain =
    let c = can_pop-Charged r now (now + wait) d q (true, d1, q1) h v e in
    let t = tokens d (pos (now + wait)) in
    let (t_int, t_le, t_earned) = tokens-le r now wait d v k l in
    let at_front : front q1 ≡ some p = unfold front pop in ground arith in
    elim c.outcome [
      | inl (goes, p', in_front, enough, paid) ↦
          let same : p' ≡ p = some_has (λ z. p' ≡ z) (sym in_front ∙ at_front) refl in
          let paid' : d1.quota ≡ sub_int t (cost p) = paid ∙ ap (λ z. sub_int t (cost z)) same in
          let (le, all) = paid_bounds t d.burst p t_int enough t_le gain in
          (
            Ready-Charged r now (now + wait) d d1 q q1 true v c
                (rw paid' (wrap-InInt (t -ℤ cost p))) (rw paid' le),
            rw paid' all,
            enough,
          )
      | inr (no', kept, reason) ↦ absurd (ground arith)
    ]

pub waits_step :
    (r now wait : ℕ) (d d1 : BandQdisc) (q q1 : PacketsRawQueue)
    → 0 < r
    → Ready r now d
    → now + wait < 2 ^ 31
    → wait * r < 2 ^ 31
    → can_pop d (pos (now + wait)) q ≡ some (false, d1, q1)
    → Ready r (now + wait) d1 × (d1.quota ≡ tokens d (pos (now + wait)))
waits_step r now wait d d1 q q1 h v k l e =
    let c = can_pop-Charged r now (now + wait) d q (false, d1, q1) h v e in
    let (t_int, t_le, t_earned) = tokens-le r now wait d v k l in
    elim c.outcome [
      | inl (goes, p', in_front, enough, paid) ↦ absurd (ground arith)
      | inr (no', kept, reason) ↦ (
        Ready-Charged r now (now + wait) d d1 q q1 false v c (rw kept t_int) (rw kept t_le),
        kept,
      )
    ]
