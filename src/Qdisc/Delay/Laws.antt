-- ===== src/Qdisc/Delay/Laws.antt =====
-- Laws of `delay_qdisc` of src/nqueue.h.
use virtual_gw.Common.{◌≡◌, ◌≢◌, ◌⊎◌, false, none, some, [], arith}
use virtual_gw.Common.Int.{ℤ}
use virtual_gw.Packets.{PacketsRawQueue, empty, front}
use virtual_gw.Qdisc.Delay.{front, empty, can_pop, DelayQdisc}

-- The delay discipline never lets a packet through: on a queue that holds a packet the answer is
-- no, whatever the times, and on an empty queue `can_pop` reads the packet that is not there.
pub can_pop_never :
    (d : DelayQdisc) (time : ℤ) (q : PacketsRawQueue)
    → ((q.packets ≢ []) × (can_pop d time q ≡ some false))
      ⊎ ((q.packets ≡ []) × (can_pop d time q ≡ none))
unfolding can_pop empty front
can_pop_never d time q = ground arith
