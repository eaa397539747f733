-- ===== src/Qdisc/Band.antt =====
-- `band_qdisc` of src/nqueue.h: a token bucket of `rate` bytes a second that holds `burst` bytes, and
-- drops packets that have waited longer than `max_delay`.
pub mod Laws
pub mod Late
pub mod Steps
pub mod Conforms
use virtual_gw.Common.{
  ℕ, zero, suc, ◌+◌, ◌%◌, ◌^◌, Bool, true, false, Option, none, some, if◌then◌else◌, ◌>>=◌, length,
}
use virtual_gw.Common.Int.{
  ℤ, pos, ltb_ℤ, leb_ℤ, eqb_ℤ, signed32, add_int, sub_int, mul_int, div_int, abs_int, min_int,
}
use virtual_gw.Common.Words.{sub_u32}
use virtual_gw.Common.Text.{Text, codes}
use virtual_gw.Common.Result.{Result, ok, bind}
use virtual_gw.Hl.Params.{Regexp, read_int}
use virtual_gw.Packets.{Npacket, PacketsRawQueue, front, drop_front}

pub record BandQdisc : Type 0 where
  pub rate : ℤ
  pub burst : ℤ
  pub quota : ℤ
  pub max_delay : ℤ
  pub last_ts : ℤ

-- `garbage` is the value of `last_ts`, which the constructor does not set.
unfoldable pub new_band : Regexp → ℤ → Text → Result BandQdisc
new_band match garbage opts = bind (read_int match opts (codes "rate ([0-9]+)") (pos 0) true) λ r.
    bind (read_int match opts (codes "burst +([0-9]+)") (pos 1500) false) λ b.
      bind (read_int match opts (codes "max_delay +([0-9]+)") (pos 0) false) λ m.
        ok (record { rate = r.1; burst = b.1; quota = pos 0; max_delay = m.1; last_ts = garbage })

-- `abs(delta_t * rate /1000)`
unfoldable pub delta_traffic : BandQdisc → ℤ → ℤ
delta_traffic d time = abs_int (div_int (mul_int (sub_int time d.last_ts) d.rate) (pos 1000))

-- The tokens that have come in since the last call.
unfoldable pub refill : BandQdisc → ℤ → BandQdisc
refill d time = record d {
  quota = min_int d.burst (add_int d.quota (delta_traffic d time));
  last_ts = time;
}

-- `max_delay && !packets.empty() && time - packets.front().in_time > max_delay`
unfoldable pub is_late : BandQdisc → ℤ → PacketsRawQueue → Bool
is_late d time q =
    if eqb_ℤ d.max_delay (pos 0)
    then false
    else elim (front q) [ none ↦ false | some p ↦ ltb_ℤ d.max_delay (sub_int time p.in_time) ]

-- The loop that drops over-delayed packets, on fuel; `none` is fuel that ran out.
unfoldable pub drop_late : ℕ → BandQdisc → ℤ → PacketsRawQueue → Option PacketsRawQueue
drop_late zero d time q = none
drop_late (suc fuel) d time q = elim (is_late d time q) [
  | true ↦ (drop_front q time >>= λ q'. drop_late fuel d time q')
  | false ↦ some q
]

-- `(int)(packets.front().data.size()-14)`
abbrev pub cost : Npacket → ℤ
cost p = signed32 (sub_u32 (length p.bytes % 2 ^ 32) 14)

-- The end of `can_pop`: the front packet is paid for from a quota above 0.
unfoldable pub charge : BandQdisc → PacketsRawQueue → Bool × BandQdisc
charge d q = elim (front q) [
  | none ↦ (false, d)
  | some p ↦
      (if ltb_ℤ (pos 0) d.quota
        then (true, record d { quota = sub_int d.quota (cost p) })
        else (false, d))
]

unfoldable pub can_pop :
    BandQdisc → ℤ → PacketsRawQueue → Option (Bool × BandQdisc × PacketsRawQueue)
can_pop d time q = if leb_ℤ d.rate (pos 0) then some (true, d, q) else (do
  let d' = refill d time
  q' ← drop_late (length q.packets + 1) d' time q
  let paid = charge d' q'
  some (paid.0, paid.1, q'))
