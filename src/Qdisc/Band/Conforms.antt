-- ===== src/Qdisc/Band/Conforms.antt =====
-- What a token bucket of src/nqueue.h lets through over any history.
use virtual_gw.Common.{ℕ, ◌+◌, ◌*◌, ◌^◌, ◌<◌, ◌≡◌, ◌⊎◌, true, false, some}
use virtual_gw.Common.Int.{ℤ, pos, pos_part, neg_part, ◌+ℤ◌, ◌≤ℤ◌}
use virtual_gw.Qdisc.Band.{cost, can_pop, BandQdisc}
use virtual_gw.Packets.{Npacket, PacketsRawQueue, push, pop}

-- A history of a bucket with the rate `r` and its queue, from the time `now` on, over `elapsed`
-- milliseconds: calls of `can_pop`, each after a wait, each yes followed by the departure of the
-- front packet, and arrivals between them. `sent` is the cost of the packets sent, each of cost 0 to
-- `m`. The times fit an `int`, and so does each wait by the rate.
pub data Sends (m r : ℕ)
    : BandQdisc → PacketsRawQueue → ℕ → ℤ → ℕ → BandQdisc → PacketsRawQueue → Type 0 where
  done : {d : BandQdisc} {q : PacketsRawQueue} {now : ℕ} → Sends m r d q now (pos 0) 0 d q
  sends :
      {d d1 d' : BandQdisc} {q q1 q2 q' : PacketsRawQueue} {now elapsed : ℕ} {sent : ℤ}
      (p : Npacket) (wait : ℕ)
      → now + wait < 2 ^ 31
      → wait * r < 2 ^ 31
      → can_pop d (pos (now + wait)) q ≡ some (true, d1, q1)
      → pop q1 (pos (now + wait)) ≡ some (p, q2)
      → pos 0 ≤ℤ cost p
      → cost p ≤ℤ pos m
      → Sends m r d1 q2 (now + wait) sent elapsed d' q'
      → Sends m r d q now (cost p +ℤ sent) (wait + elapsed) d' q'
  waits :
      {d d1 d' : BandQdisc} {q q1 q' : PacketsRawQueue} {now elapsed : ℕ} {sent : ℤ} (wait : ℕ)
      → now + wait < 2 ^ 31
      → wait * r < 2 ^ 31
      → can_pop d (pos (now + wait)) q ≡ some (false, d1, q1)
      → Sends m r d1 q1 (now + wait) sent elapsed d' q'
      → Sends m r d q now sent (wait + elapsed) d' q'
  arrives :
      {d d' : BandQdisc} {q q' : PacketsRawQueue} {now elapsed : ℕ} {sent : ℤ} (p : Npacket)
      → Sends m r d (push q p) now sent elapsed d' q'
      → Sends m r d q now sent elapsed d' q'

-- Either nothing was sent, or what was sent is below `quota`, `m` and the `earned` thousandths
-- together.
abbrev pub Within : ℕ → ℤ → ℤ → ℕ → Type 0
Within m quota sent earned =
    (sent ≡ pos 0)
    ⊎ (1000 * pos_part sent + 1000 * neg_part quota
        < 1000 * pos_part quota + earned + 1000 * m + 1000 * neg_part sent)
