-- ===== src/Qdisc/Rloss/Laws.antt =====
-- Laws of `rloss_qdisc` of src/nqueue.h.
use virtual_gw.Common.{
  ℕ, zero, suc, ◌+◌, ◌%◌, ◌<◌, ◌≡◌, refl, ◌⊎◌, inl, inr, true, false, not, none, some, ◌∷◌, arith,
  Bool-cases, Option-cases, length, drop,
}
use virtual_gw.Common.Int.{ℤ, pos, ◌≤ℤ◌, ◌<ℤ◌, ltb_ℤ}
use virtual_gw.Packets.Laws.{drop_front-some}
use virtual_gw.Packets.{Npacket, PacketsRawQueue, front, empty, drop_front}
use virtual_gw.Qdisc.Rloss.{
  front, Npacket, drop_front, empty, PacketsRawQueue, toss, can_pop, unseen, toss_all, RlossQdisc,
}
use native.Mathlib.Nat.{add-zero}

-- What one run of the loop has done, from `d` and `q` with `used` draws made: it has dropped the
-- first `k` packets, each by a draw below the loss rate; the packet now in front, if there is one,
-- is the last one seen, and has survived its draw where it took one.
pub record Tossed (rand : ℕ → ℕ) (used : ℕ) (d : RlossQdisc) (q : PacketsRawQueue)
    (r : RlossQdisc × PacketsRawQueue × ℕ) : Type 0 where
  pub k : ℕ
  pub kept : r.1.packets ≡ drop k q.packets
  pub lost : (i : ℕ) → i < k → pos (rand (used + i) % 100) <ℤ d.rate
  pub draws : (r.2 ≡ used + k) ⊎ ((r.2 ≡ used + k + 1) × (d.rate ≤ℤ pos (rand (used + k) % 100)))
  pub seen : (p : Npacket) → front r.1 ≡ some p → r.0.last_uid ≡ p.uid
  pub same_rate : r.0.rate ≡ d.rate

unseen-front :
    (d : RlossQdisc) (q : PacketsRawQueue) (p : Npacket) → unseen d q ≡ some p → front q ≡ some p
unfolding unseen
unseen-front d q p h = ground arith

unseen-none :
    (d : RlossQdisc) (q : PacketsRawQueue) (p : Npacket)
    → unseen d q ≡ none
    → front q ≡ some p
    → d.last_uid ≡ p.uid
unfolding unseen
unseen-none d q p h e = ground arith

unseen_again :
    (d : RlossQdisc) (q : PacketsRawQueue)
    → ((p : Npacket) → front q ≡ some p → d.last_uid ≡ p.uid)
    → unseen d q ≡ none
unfolding unseen
unseen_again d q h = elim (Option-cases (front q)) [
  | inl e ↦ rw (e, unseen)
  | inr (p, e) ↦ rw (e, unseen) (ground (arith, h p e))
]

-- One more packet dropped in front of a run.
Tossed-drop :
    (rand : ℕ → ℕ) (used : ℕ) (d : RlossQdisc) (q q' : PacketsRawQueue) (p : Npacket)
    (r : RlossQdisc × PacketsRawQueue × ℕ)
    → q.packets ≡ p ∷ q'.packets
    → pos (rand used % 100) <ℤ d.rate
    → Tossed rand (used + 1) (record d { last_uid = p.uid }) q' r
    → Tossed rand used d q r
Tossed-drop rand used d q q' p r e h t = record {
  k = suc t.k;
  kept = rw e t.kept;
  lost = λ i. lost_at i;
  draws = elim t.draws [ inl a ↦ inl (omega arith) | inr (a, b) ↦ inr (omega arith, rw shift b) ];
  seen = t.seen;
  same_rate = t.same_rate;
}
  where
    shift : used + suc t.k ≡ used + 1 + t.k
    shift = omega arith

    lost_at : (i : ℕ) → i < suc t.k → pos (rand (used + i) % 100) <ℤ d.rate
    lost_at zero hi = rw (add-zero used) h
    lost_at (suc i) hi =
        let e' : used + suc i ≡ used + 1 + i = omega arith in rw e' (t.lost i (omega arith))

-- The packet in front has been seen: nothing is done.
Tossed-stop :
    (rand : ℕ → ℕ) (used : ℕ) (d : RlossQdisc) (q : PacketsRawQueue)
    → unseen d q ≡ none
    → Tossed rand used d q (d, q, used)
Tossed-stop rand used d q e = record {
  k = 0;
  kept = refl;
  lost = λ i hi. absurd (omega arith);
  draws = inl (omega arith);
  seen = λ p h. unseen-none d q p e h;
  same_rate = refl;
}

-- The packet in front survives its draw.
Tossed-survive :
    (rand : ℕ → ℕ) (used : ℕ) (d : RlossQdisc) (q : PacketsRawQueue) (p : Npacket)
    → front q ≡ some p
    → d.rate ≤ℤ pos (rand used % 100)
    → Tossed rand used d q (record d { last_uid = p.uid }, q, used + 1)
Tossed-survive rand used d q p e h = record {
  k = 0;
  kept = refl;
  lost = λ i hi. absurd (omega arith);
  draws = inr (omega arith, rw (add-zero used) h);
  seen = λ p' h'. ground arith;
  same_rate = refl;
}

toss_hit :
    (rand : ℕ → ℕ) (used : ℕ) (d : RlossQdisc) (time : ℤ) (q : PacketsRawQueue)
    → ltb_ℤ (pos (rand used % 100)) d.rate ≡ true
    → toss rand used d time q ≡ drop_front q time
unfolding toss
toss_hit rand used d time q h = rw h

toss_miss :
    (rand : ℕ → ℕ) (used : ℕ) (d : RlossQdisc) (time : ℤ) (q : PacketsRawQueue)
    → ltb_ℤ (pos (rand used % 100)) d.rate ≡ false
    → toss rand used d time q ≡ some q
unfolding toss
toss_miss rand used d time q h = rw h

toss_all_stop :
    (rand : ℕ → ℕ) (time : ℤ) (fuel used : ℕ) (d : RlossQdisc) (q : PacketsRawQueue)
    → unseen d q ≡ none
    → toss_all (suc fuel) rand used d time q ≡ some (d, q, used)
unfolding toss_all
toss_all_stop rand time fuel used d q e = rw (e, toss_all)

toss_all-Tossed :
    (rand : ℕ → ℕ) (time : ℤ) (fuel used : ℕ) (d : RlossQdisc) (q : PacketsRawQueue)
    → length q.packets + 1 < fuel
    → (r : RlossQdisc × PacketsRawQueue × ℕ) × (toss_all fuel rand used d time q ≡ some r)
      × Tossed rand used d q r
unfolding toss_all
toss_all-Tossed rand time zero used d q h = absurd (omega arith)
toss_all-Tossed rand time (suc zero) used d q h = absurd (omega arith)
toss_all-Tossed rand time (suc (suc fuel)) used d q h = elim (Option-cases (unseen d q)) [
  | inl e ↦ rw (e, toss_all) ((d, q, used), refl, Tossed-stop rand used d q e)
  | inr (p, e) ↦
      let at_front = unseen-front d q p e in
      elim (Bool-cases (ltb_ℤ (pos (rand used % 100)) d.rate)) [
        | inl hit ↦
            let (q', eq, takes) = drop_front-some q p time at_front in
            let shorter : length q.packets ≡ suc (length q'.packets) = rw takes in
            let d' : RlossQdisc = record d { last_uid = p.uid } in
            let (r, er, t) = toss_all-Tossed rand time (suc fuel) (used + 1) d' q' (omega arith) in
            (
              r,
              rw (e, toss_all) (rw (toss_hit rand used d time q hit, eq) er),
              Tossed-drop rand used d q q' p r takes (ground arith) t,
            )
        | inr miss ↦
            let d' : RlossQdisc = record d { last_uid = p.uid } in
            (
              (d', q, used + 1),
              rw (e, toss_all)
                  (rw (toss_miss rand used d time q miss) (
                    toss_all_stop rand time fuel (used + 1) d' q
                      (unseen_again d' q (λ p' h'. ground arith)))),
              Tossed-survive rand used d q p at_front (ground arith),
            )
      ]
]

-- `can_pop` of random loss always ends, with the answer whether a packet is left. It drops the first
-- `k` packets of the queue for some `k`, each by a draw of its own below the loss rate, and makes at
-- most one more draw, which the front packet survives. Asked again at any time before the queue
-- changes, it gives the same answer, draws nothing and drops nothing.
pub can_pop_tosses_once :
    (rand : ℕ → ℕ) (used : ℕ) (d : RlossQdisc) (time : ℤ) (q : PacketsRawQueue)
    → (d' : RlossQdisc) × (q' : PacketsRawQueue) × (used' : ℕ) × (can_pop rand used d time q
        ≡ some (not (empty q'), d', q', used'))
      × Tossed rand used d q (d', q', used')
      × ((later : ℤ) → can_pop rand used' d' later q' ≡ some (not (empty q'), d', q', used'))
unfolding can_pop
can_pop_tosses_once rand used d time q =
    let (r, e, t) = toss_all-Tossed rand time (length q.packets + 2) used d q (omega arith) in
    (r.0, r.1, r.2, rw e, t, λ later. rw (again r t later))
  where
    again :
        (r : RlossQdisc × PacketsRawQueue × ℕ)
        → Tossed rand used d q r
        → (later : ℤ)
        → toss_all (length r.1.packets + 2) rand r.2 r.0 later r.1 ≡ some (r.0, r.1, r.2)
    again r t later =
        let fuel : length r.1.packets + 2 ≡ suc (length r.1.packets + 1) = omega arith in
        rw fuel (
          toss_all_stop rand later (length r.1.packets + 1) r.2 r.0 r.1
            (unseen_again r.0 r.1 t.seen))
