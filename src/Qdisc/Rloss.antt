-- ===== src/Qdisc/Rloss.antt =====
-- `rloss_qdisc` of src/nqueue.h: random loss, a percentage. `rand i` is the i-th value of `rand()`.
pub mod Laws
use virtual_gw.Common.Result.{bind, Result, ok}
use virtual_gw.Common.{
  ℕ, zero, suc, ◌+◌, ◌%◌, Bool, true, not, Option, none, some, if◌then◌else◌, ◌>>=◌, length,
}
use virtual_gw.Common.Int.{ℤ, pos, ltb_ℤ, eqb_ℤ}
use virtual_gw.Common.Text.{Text, codes}
use virtual_gw.Hl.Params.{Regexp, read_int}
use virtual_gw.Packets.{Npacket, PacketsRawQueue, front, empty, drop_front}

pub record RlossQdisc : Type 0 where
  pub rate : ℤ
  pub last_uid : ℤ

-- The parameter is required, so the value 0 that stands for the uninitialised member is not kept.
unfoldable pub new_rloss : Regexp → Text → Result RlossQdisc
new_rloss match opts =
    bind (read_int match opts (codes "([0-9]+)") (pos 0) true)
      λ r. ok (record { rate = r.1; last_uid = pos 0 })

-- The body of the loop at a front packet not seen before: one draw, and the loss.
unfoldable pub toss : (ℕ → ℕ) → ℕ → RlossQdisc → ℤ → PacketsRawQueue → Option PacketsRawQueue
toss rand used d time q = if ltb_ℤ (pos (rand used % 100)) d.rate then drop_front q time else some q

-- `!packets.empty() && last_uid != packets.front().uid`, with the packet where it is true.
unfoldable pub unseen : RlossQdisc → PacketsRawQueue → Option Npacket
unseen d q = elim (front q) [
  | none ↦ none
  | some p ↦ (if eqb_ℤ d.last_uid p.uid then none else some p)
]

-- The loop, on fuel; `none` is fuel that ran out.
unfoldable pub toss_all :
    ℕ → (ℕ → ℕ) → ℕ → RlossQdisc → ℤ → PacketsRawQueue → Option (RlossQdisc × PacketsRawQueue × ℕ)
toss_all zero rand used d time q = none
toss_all (suc fuel) rand used d time q = elim (unseen d q) [
  | none ↦ some (d, q, used)
  | some p ↦
      (toss rand used d time q >>= λ q'.
      toss_all fuel rand (used + 1) (record d { last_uid = p.uid }) time q')
]

-- `can_pop`, with fuel for two rounds more than there are packets.
unfoldable pub can_pop :
    (ℕ → ℕ)
    → ℕ
    → RlossQdisc
    → ℤ
    → PacketsRawQueue
    → Option (Bool × RlossQdisc × PacketsRawQueue × ℕ)
can_pop rand used d time q = do
  r ← toss_all (length q.packets + 2) rand used d time q
  some (not (empty r.1), r.0, r.1, r.2)
