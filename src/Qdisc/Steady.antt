-- ===== src/Qdisc/Steady.antt =====
-- The disciplines of src/nqueue.h go by what they were told: `can_pop` leaves their descriptions.
use virtual_gw.Common.{
  ℕ, zero, suc, ◌+◌, ◌≡◌, refl, inl, inr, Bool, some, arith, Bool-cases, Option-cases, >>=-eq-some,
  length, if-eq-some, some_has,
}
use virtual_gw.Common.Int.{ℤ, pos, ltb_ℤ, leb_ℤ}
use virtual_gw.Qdisc.{rloss, band, delay, can_pop, Qdisc}
use virtual_gw.Packets.{PacketsRawQueue, front}
use virtual_gw.Qdisc.Describe.{describe}
use virtual_gw.Qdisc.Rloss
use virtual_gw.Qdisc.Rloss.{RlossQdisc, toss, toss_all, unseen}
use virtual_gw.Qdisc.Band
use virtual_gw.Qdisc.Band.{BandQdisc, drop_late, charge, refill}
use virtual_gw.Qdisc.Delay

toss_all-rate :
    (fuel : ℕ) (rand : ℕ → ℕ) (used : ℕ) (d : RlossQdisc) (time : ℤ) (q : PacketsRawQueue)
    (r : RlossQdisc × PacketsRawQueue × ℕ)
    → toss_all fuel rand used d time q ≡ some r
    → r.0.rate ≡ d.rate
unfolding toss_all
toss_all-rate zero rand used d time q r e = absurd (ground arith)
toss_all-rate (suc fuel) rand used d time q r e = elim (Option-cases (unseen d q)) [
  | inl none_left ↦ some_has (λ z. z.0.rate ≡ d.rate) (rw (none_left, toss_all) at e) refl
  | inr (p, is_new) ↦
      let (q1, e1, e2) = >>=-eq-some (toss rand used d time q) _ (rw (is_new, toss_all) at e) in
      toss_all-rate fuel rand (used + 1) (record d { last_uid = p.uid }) time q1 r e2
]

-- Two buckets with the same settings.
abbrev Alike : BandQdisc → BandQdisc → Type 0
Alike d d' = (d.rate ≡ d'.rate) × (d.burst ≡ d'.burst) × (d.max_delay ≡ d'.max_delay)

charge-Alike : (d : BandQdisc) (q : PacketsRawQueue) → Alike (charge d q).1 d
unfolding charge
charge-Alike d q = elim (Option-cases (front q)) [
  | inl nothing ↦ rw (nothing, charge) (refl, refl, refl)
  | inr (p, e) ↦ elim (Bool-cases (ltb_ℤ (pos 0) d.quota)) [
    | inl paid ↦ rw (e, paid, charge) (refl, refl, refl)
    | inr owed ↦ rw (e, owed, charge) (refl, refl, refl)
  ]
]

band-Alike :
    (d : BandQdisc) (time : ℤ) (q : PacketsRawQueue) (r : Bool × BandQdisc × PacketsRawQueue)
    → Band.can_pop d time q ≡ some r
    → Alike r.1 d
unfolding Band.can_pop refill
band-Alike d time q r e = elim (if-eq-some (leb_ℤ d.rate (pos 0)) _ _ e) [
  | inl k ↦ some_has (λ z. Alike z.1 d) k (refl, refl, refl)
  | inr k ↦
      let (left, e1, e2) =
        >>=-eq-some (drop_late (length q.packets + 1) (refill d time) time q) _ k in
      some_has (λ z. Alike z.1 d) e2 (charge-Alike (refill d time) left)
]

pub describe-can_pop :
    (rand : ℕ → ℕ) (used : ℕ) (d : Qdisc) (time : ℤ) (q : PacketsRawQueue)
    (r : Bool × Qdisc × PacketsRawQueue × ℕ)
    → can_pop rand used d time q ≡ some r
    → describe r.1 ≡ describe d
unfolding can_pop describe Rloss.can_pop
describe-can_pop rand used (rloss d) time q r e =
    elim (Option-cases (Rloss.can_pop rand used d time q)) [
      | inl undefined ↦ absurd (ground arith)
      | inr (out, e1) ↦
          let (left, e2, e3) =
            >>=-eq-some (toss_all (length q.packets + 2) rand used d time q) _ e1 in
          let same : out.1.rate ≡ d.rate =
            some_has (λ z. z.1.rate ≡ d.rate) e3
              (toss_all-rate (length q.packets + 2) rand used d time q left e2) in
          some_has (λ z. describe z.1 ≡ describe (rloss d)) (rw (e1, can_pop) at e) (rw same refl)
    ]
describe-can_pop rand used (band d) time q r e = elim (Option-cases (Band.can_pop d time q)) [
  | inl undefined ↦ absurd (ground arith)
  | inr (out, e1) ↦
      some_has (λ z. describe z.1 ≡ describe (band d)) (rw (e1, can_pop) at e)
        (let (rate, burst, max_delay) = band-Alike d time q out e1 in
          rw (rate, burst, max_delay) refl)
]
describe-can_pop rand used (delay d) time q r e = elim (Option-cases (Delay.can_pop d time q)) [
  | inl undefined ↦ absurd (ground arith)
  | inr (out, e1) ↦ some_has (λ z. describe z.1 ≡ describe (delay d)) (rw (e1, can_pop) at e) refl
]
