-- ===== src/Qdisc/Band/Late.antt =====
-- The loop of `band_qdisc::can_pop` in src/nqueue.h that drops over-delayed packets.
use virtual_gw.Common.{
  ℕ, zero, suc, ◌<◌, ◌≡◌, refl, ◌≢◌, ◌⊎◌, inl, inr, true, false, some, ◌∷◌, arith, Bool-cases,
  Option-cases, length, get_elem?, drop,
}
use virtual_gw.Common.Int.{ℤ, pos, ◌≤ℤ◌, ◌<ℤ◌, eqb_ℤ, eq_of_parts, sub_int}
use virtual_gw.Qdisc.Band.{is_late, drop_late, BandQdisc}
use virtual_gw.Packets.Laws.{drop_front-some}
use virtual_gw.Packets.{Npacket, PacketsRawQueue, front}

-- The packets that are dropped: the first `k`, all of them late; the one then in front is not late.
-- With 0 for `max_delay` no packet is late.
pub record Cut (d : BandQdisc) (time : ℤ) (q q' : PacketsRawQueue) : Type 0 where
  pub k : ℕ
  pub kept : q'.packets ≡ drop k q.packets
  pub late :
      (i : ℕ) (p : Npacket)
      → i < k
      → get_elem? q.packets i ≡ some p
      → (d.max_delay ≢ pos 0) × (d.max_delay <ℤ sub_int time p.in_time)
  pub ends :
      (p : Npacket)
      → front q' ≡ some p
      → (d.max_delay ≡ pos 0) ⊎ (sub_int time p.in_time ≤ℤ d.max_delay)

late_front :
    (d : BandQdisc) (time : ℤ) (q : PacketsRawQueue)
    → is_late d time q ≡ true
    → (p : Npacket) × (front q ≡ some p)
      × (d.max_delay ≢ pos 0)
      × (d.max_delay <ℤ sub_int time p.in_time)
unfolding is_late
late_front d time q h = elim (Option-cases (front q)) [
  | inl e ↦ ground arith
  | inr (p, e) ↦ (p, e, λ k. limits k, ground arith)
]
  where
    limits : d.max_delay ≢ pos 0
    limits k = ground arith

fine_front :
    (d : BandQdisc) (time : ℤ) (q : PacketsRawQueue) (p : Npacket)
    → is_late d time q ≡ false
    → front q ≡ some p
    → (d.max_delay ≡ pos 0) ⊎ (sub_int time p.in_time ≤ℤ d.max_delay)
unfolding is_late
fine_front d time q p h e = elim (Bool-cases (eqb_ℤ d.max_delay (pos 0))) [
  | inl k ↦ inl (eq_of_parts d.max_delay (pos 0) (ground arith))
  | inr k ↦ inr (ground arith)
]

Cut-drop :
    (d : BandQdisc) (time : ℤ) (q q1 q' : PacketsRawQueue) (p : Npacket)
    → q.packets ≡ p ∷ q1.packets
    → (d.max_delay ≢ pos 0) × (d.max_delay <ℤ sub_int time p.in_time)
    → Cut d time q1 q'
    → Cut d time q q'
Cut-drop d time q q1 q' p e h c = record {
  k = suc c.k;
  kept = rw e c.kept;
  late = late_at;
  ends = c.ends;
}
  where
    late_at :
        (i : ℕ) (r : Npacket)
        → i < suc c.k
        → get_elem? q.packets i ≡ some r
        → (d.max_delay ≢ pos 0) × (d.max_delay <ℤ sub_int time r.in_time)
    late_at zero r hi g = (h.0, ground arith)
    late_at (suc i) r hi g = c.late i r (omega arith) (rw e at g)

-- The fuel of `can_pop` is enough: the loop ends, with exactly the late packets in front dropped.
pub drop_late-Cut :
    (fuel : ℕ) (d : BandQdisc) (time : ℤ) (q : PacketsRawQueue)
    → length q.packets < fuel
    → (q' : PacketsRawQueue) × (drop_late fuel d time q ≡ some q') × Cut d time q q'
unfolding drop_late
drop_late-Cut zero d time q h = absurd (omega arith)
drop_late-Cut (suc fuel) d time q h = elim (Bool-cases (is_late d time q)) [
  | inl late ↦
      let (p, ep, limits, over) = late_front d time q late in
      let (q1, e1, takes) = drop_front-some q p time ep in
      let shorter : length q.packets ≡ suc (length q1.packets) = rw takes in
      let (q', eq, c) = drop_late-Cut fuel d time q1 (omega arith) in
      (q', rw (late, drop_late) (rw e1 eq), Cut-drop d time q q1 q' p takes (limits, over) c)
  | inr fine ↦ (
    q,
    rw (fine, drop_late),
    record {
      k = 0;
      kept = refl;
      late = λ i p hi g. absurd (omega arith);
      ends = λ p e. fine_front d time q p fine e;
    },
  )
]
