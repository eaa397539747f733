-- ===== src/Qdisc/Mass.antt =====
-- The disciplines of src/nqueue.h let packets wait or drop them, and add none.
use virtual_gw.Common.{
  ℕ, zero, suc, ◌+◌, ◌≤◌, ◌≡◌, inl, inr, Bool, some, List, arith, Bool-cases, Option-cases,
  >>=-eq-some, length,
}
use virtual_gw.Common.Int.{ℤ, pos, leb_ℤ}
use virtual_gw.Packets.{PacketsRawQueue, drop_front}
use virtual_gw.Packets.Mass.{waiting, waiting-drop_front}
use virtual_gw.Qdisc.{Qdisc, can_pop, rloss, band, delay}
use virtual_gw.Qdisc.Rloss
use virtual_gw.Qdisc.Rloss.{RlossQdisc, toss, toss_all, unseen}
use virtual_gw.Qdisc.Band
use virtual_gw.Qdisc.Band.{BandQdisc, drop_late, is_late, refill}

module _ (w : List ℕ → ℕ) where
  waiting-toss :
      (rand : ℕ → ℕ) (used : ℕ) (d : RlossQdisc) (time : ℤ) (q q' : PacketsRawQueue)
      → toss rand used d time q ≡ some q'
      → waiting w q'.packets ≤ waiting w q.packets
  unfolding toss
  waiting-toss rand used d time q q' e = ground (arith, waiting-drop_front w q q' time)

  waiting-toss_all :
      (fuel : ℕ) (rand : ℕ → ℕ) (used : ℕ) (d : RlossQdisc) (time : ℤ) (q : PacketsRawQueue)
      (r : RlossQdisc × PacketsRawQueue × ℕ)
      → toss_all fuel rand used d time q ≡ some r
      → waiting w r.1.packets ≤ waiting w q.packets
  unfolding toss_all
  waiting-toss_all zero rand used d time q r e = absurd (ground arith)
  waiting-toss_all (suc fuel) rand used d time q r e = elim (Option-cases (unseen d q)) [
    | inl none_left ↦ ground arith
    | inr (p, is_new) ↦
        let (q1, e1, e2) = >>=-eq-some (toss rand used d time q) _ (rw (is_new, toss_all) at e) in
        omega (
          arith,
          waiting-toss rand used d time q q1 e1,
          waiting-toss_all fuel rand (used + 1) (record d { last_uid = p.uid }) time q1 r e2,
        )
  ]

  waiting-drop_late :
      (fuel : ℕ) (d : BandQdisc) (time : ℤ) (q q' : PacketsRawQueue)
      → drop_late fuel d time q ≡ some q'
      → waiting w q'.packets ≤ waiting w q.packets
  unfolding drop_late
  waiting-drop_late zero d time q q' e = absurd (ground arith)
  waiting-drop_late (suc fuel) d time q q' e = elim (Bool-cases (is_late d time q)) [
    | inl late ↦
        let (q1, e1, e2) = >>=-eq-some (drop_front q time) _ (rw (late, drop_late) at e) in
        omega (arith, waiting-drop_front w q q1 time e1, waiting-drop_late fuel d time q1 q' e2)
    | inr fresh ↦ ground arith
  ]

  waiting-rloss :
      (rand : ℕ → ℕ) (used : ℕ) (d : RlossQdisc) (time : ℤ) (q : PacketsRawQueue)
      (r : Bool × RlossQdisc × PacketsRawQueue × ℕ)
      → Rloss.can_pop rand used d time q ≡ some r
      → waiting w r.2.packets ≤ waiting w q.packets
  unfolding Rloss.can_pop
  waiting-rloss rand used d time q r e =
      let fuel = length q.packets + 2 in
      let (left, e1, e2) = >>=-eq-some (toss_all fuel rand used d time q) _ e in
      ground (arith, waiting-toss_all fuel rand used d time q left e1)

  waiting-band :
      (d : BandQdisc) (time : ℤ) (q : PacketsRawQueue) (r : Bool × BandQdisc × PacketsRawQueue)
      → Band.can_pop d time q ≡ some r
      → waiting w r.2.packets ≤ waiting w q.packets
  unfolding Band.can_pop
  waiting-band d time q r e = elim (Bool-cases (leb_ℤ d.rate (pos 0))) [
    | inl open_wide ↦ ground arith
    | inr limited ↦
        let fuel = length q.packets + 1 in
        let (left, e1, e2) =
          >>=-eq-some (drop_late fuel (refill d time) time q) _ (rw (limited, Band.can_pop) at e) in
        ground (arith, waiting-drop_late fuel (refill d time) time q left e1)
  ]

  -- Whatever a discipline decides, no more waits behind it than before.
  pub waiting-can_pop :
      (rand : ℕ → ℕ) (used : ℕ) (d : Qdisc) (time : ℤ) (q : PacketsRawQueue)
      (r : Bool × Qdisc × PacketsRawQueue × ℕ)
      → can_pop rand used d time q ≡ some r
      → waiting w r.2.packets ≤ waiting w q.packets
  unfolding can_pop
  waiting-can_pop rand used (rloss d) time q r e =
      elim (Option-cases (Rloss.can_pop rand used d time q)) [
        | inl undefined ↦ absurd (ground arith)
        | inr (out, e1) ↦ ground (arith, waiting-rloss rand used d time q out e1)
      ]
  waiting-can_pop rand used (band d) time q r e = elim (Option-cases (Band.can_pop d time q)) [
    | inl undefined ↦ absurd (ground arith)
    | inr (out, e1) ↦ ground (arith, waiting-band d time q out e1)
  ]
  waiting-can_pop rand used (delay d) time q r e = ground arith
