-- ===== src/Qdisc/Delay.antt =====
-- `delay_qdisc` of src/nqueue.h.
pub mod Laws
use virtual_gw.Common.{Bool, true, false, Option, some, if◌then◌else◌, ◌>>=◌}
use virtual_gw.Common.Int.{ℤ, pos, leb_ℤ, sub_int}
use virtual_gw.Common.Text.{Text, codes}
use virtual_gw.Common.Result.{Result, ok, bind}
use virtual_gw.Hl.Params.{Regexp, read_int}
use virtual_gw.Packets.{PacketsRawQueue, front, empty}

pub record DelayQdisc : Type 0 where
  pub ms : ℤ

unfoldable pub new_delay : Regexp → Text → Result DelayQdisc
new_delay match opts =
    bind (read_int match opts (codes "([0-9]+)") (pos 0) true) λ r. ok (record { ms = r.1 })

-- `return packets.empty() && time - packets.front().in_time >= delay;` The front packet is read only
-- where the queue is empty, and `none` is that read.
unfoldable pub can_pop : DelayQdisc → ℤ → PacketsRawQueue → Option Bool
can_pop d time q =
    if empty q then (do p ← front q; some (leb_ℤ d.ms (sub_int time p.in_time))) else some false
