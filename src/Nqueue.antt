-- ===== src/Nqueue.antt =====
-- `nqueue` of src/nqueue.h: a filter, a packet queue, and the disciplines that its packets must pass.
pub mod Laws
pub mod Mass
mod Tests
use virtual_gw.Common.{
  ℕ, Bool, true, false, Option, none, some, List, [], ◌∷◌, ◌++◌, leb, if◌then◌else◌, ◌>>=◌, length,
  set,
}
use virtual_gw.Common.Int.{ℤ, bits32}
use virtual_gw.Common.Text.{Text, atoi}
use virtual_gw.Common.Result.{Result, ok, thrown, std_exception, bind}
use virtual_gw.Hl.Params.{Regexp}
use virtual_gw.Packets.{Npacket, PacketsRawQueue, new_queue, set_queue_size, push, pop}
use virtual_gw.Qdisc.{Qdisc, can_pop, create_qdisc}
use virtual_gw.Nfilter.{Nfilter, default_filter, accepts}

pub record Nqueue : Type 0 where
  pub packets : PacketsRawQueue
  pub qdisc_vec : List Qdisc
  pub filter : Nfilter

-- The constructor: `packets(10240)`.
unfoldable pub new_nqueue : Nqueue
new_nqueue = record { packets = new_queue 10240; qdisc_vec = []; filter = default_filter }

-- `set`: an index, converted to `size_t`, at or past the end is an error.
unfoldable pub set_qdisc : Regexp → ℤ → Nqueue → Text → Text → Text → Result Nqueue
set_qdisc match garbage n qdisc_index qdisc_type params =
    let i = bits32 (atoi qdisc_index) in
    if leb (length n.qdisc_vec) i
    then thrown std_exception
    else bind (create_qdisc match garbage qdisc_type params)
        λ d. ok (record n { qdisc_vec = set n.qdisc_vec i d })

unfoldable pub push_back_qdisc : Regexp → ℤ → Nqueue → Text → Text → Result Nqueue
push_back_qdisc match garbage n qdisc_type params =
    bind (create_qdisc match garbage qdisc_type params)
      λ d. ok (record n { qdisc_vec = n.qdisc_vec ++ d ∷ [] })

unfoldable pub set_qsize : Nqueue → ℕ → Nqueue
set_qsize n new_size = record n { packets = set_queue_size n.packets new_size }

-- `packet_in`; `none` is a read of the filter past the packet's end.
unfoldable pub packet_in : Nqueue → Npacket → Option (Bool × Nqueue)
packet_in n p = do
  mine ← accepts n.filter p.bytes
  some (if mine then (true, record n { packets = push n.packets p }) else (false, n))

-- The loop of `packet_out`: each discipline in turn until one says no.
unfoldable pub can_pop_all :
    (ℕ → ℕ)
    → ℕ
    → List Qdisc
    → ℤ
    → PacketsRawQueue
    → Option (Bool × List Qdisc × PacketsRawQueue × ℕ)
can_pop_all rand used [] time q = some (true, [], q, used)
can_pop_all rand used (d ∷ ds) time q = do
  r ← can_pop rand used d time q
  elim r.0 [
    | true ↦ (do rs ← can_pop_all rand r.3 ds time r.2; some (rs.0, r.1 ∷ rs.1, rs.2, rs.3))
    | false ↦ some (false, r.1 ∷ ds, r.2, r.3)
  ]

-- What `packet_out` gives: the data sent, if a packet was, the queue, the draws used.
abbrev pub Out : Type 0
Out = Option (List ℕ) × Nqueue × ℕ

-- The end of `packet_out`: `transport.send( packets.pop(time).data )`.
unfoldable pub send_front : Nqueue → ℕ → ℤ → Option Out
send_front n used time = do
  out ← pop n.packets time
  some (some out.0.bytes, record n { packets = out.1 }, used)

-- What follows the loop of `packet_out`.
unfoldable pub after_all : Nqueue → ℤ → Bool × List Qdisc × PacketsRawQueue × ℕ → Option Out
after_all n time (yes_all, ds, q, used) =
    let n' = record n { qdisc_vec = ds; packets = q } in
    if yes_all then send_front n' used time else some (none, n', used)

unfoldable pub packet_out : (ℕ → ℕ) → ℕ → Nqueue → ℤ → Option Out
packet_out rand used n time = elim n.qdisc_vec [
  | [] ↦ some (none, n, used)
  | d ∷ ds ↦ (can_pop_all rand used (d ∷ ds) time n.packets >>= after_all n time)
]
