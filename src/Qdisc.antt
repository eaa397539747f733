-- ===== src/Qdisc.antt =====
-- The queueing disciplines of src/nqueue.h: `qdisc` with its three subclasses, and `Create_qdisc`.
-- `can_pop` decides whether the front packet may be sent now, and may drop packets before it.
pub mod Rloss
pub mod Band
pub mod Delay
pub mod Mass
pub mod Describe
pub mod Steady
mod Tests
use virtual_gw.Common.{ℕ, Bool, Option, none, some, if◌then◌else◌}
use virtual_gw.Common.Int.{ℤ}
use virtual_gw.Common.Text.{Text, codes, text_eq}
use virtual_gw.Common.Result.{Result, ok, thrown, std_exception, ◌>>=◌}
use virtual_gw.Hl.Params.{Regexp}
use virtual_gw.Packets.{PacketsRawQueue}
use Rloss.{RlossQdisc}
use Band.{BandQdisc}
use Delay.{DelayQdisc}

-- A `qdisc` of one of the subclasses.
pub data Qdisc : Type 0 where
  rloss : RlossQdisc → Qdisc
  band : BandQdisc → Qdisc
  delay : DelayQdisc → Qdisc

-- The virtual call `can_pop`, with the draws of `rand` numbered and those used counted.
unfoldable pub can_pop :
    (ℕ → ℕ) → ℕ → Qdisc → ℤ → PacketsRawQueue → Option (Bool × Qdisc × PacketsRawQueue × ℕ)
can_pop rand used (rloss d) time q = elim (Rloss.can_pop rand used d time q) [
  | none ↦ none
  | some r ↦ some (r.0, rloss r.1, r.2, r.3)
]
can_pop rand used (band d) time q = elim (Band.can_pop d time q) [
  | none ↦ none
  | some r ↦ some (r.0, band r.1, r.2, used)
]
can_pop rand used (delay d) time q = elim (Delay.can_pop d time q) [
  | none ↦ none
  | some r ↦ some (r, delay d, q, used)
]

-- `Create_qdisc`; `garbage` is what the constructor of `band_qdisc` leaves in `last_ts`.
unfoldable pub create_qdisc : Regexp → ℤ → Text → Text → Result Qdisc
create_qdisc match garbage qdisc_type params =
    if text_eq qdisc_type (codes "band")
    then (do d ← Band.new_band match garbage params; ok (band d))
    else if text_eq qdisc_type (codes "delay")
    then (do d ← Delay.new_delay match params; ok (delay d))
    else if text_eq qdisc_type (codes "rloss")
    then (do d ← Rloss.new_rloss match params; ok (rloss d))
    else thrown std_exception
