-- ===== src/Packets/Laws.antt =====
-- The packet queue of src/nqueue.h: its accounting and its order.
use virtual_gw.Common.{
  ℕ, ◌+◌, ◌^◌, ◌≤◌, ◌<◌, ◌≡◌, refl, ◌⊎◌, inl, inr, Option, some, List, [], ◌∷◌, ◌++◌, arith, leb,
  if◌then◌else◌, ◌>>=◌, >>=-eq-some, length,
}
use virtual_gw.Common.Int.{ℤ, pos}
use virtual_gw.Common.Words.{sub_u32}
use mathlib.Core.List.{tail, append_assoc, Sublistᴰ, append-nil}
use virtual_gw.Packets.{new_queue, push, front, pop, drop_front, Npacket, PacketsRawQueue}
use virtual_gw.Statistics.{add, payload, packet_lost, packet_out}

-- The bytes that wait.
abbrev pub data_size : List Npacket → ℕ
data_size [] = 0
data_size (p ∷ ps) = length p.bytes + data_size ps

-- The running total is the sum of the sizes of the packets, and has not wrapped.
pub record IsValid (q : PacketsRawQueue) : Type 0 where
  pub counted : q.total_data_size ≡ data_size q.packets
  pub word : q.total_data_size < 2 ^ 32

pub data_size-append : (ps rs : List Npacket) → data_size (ps ++ rs) ≡ data_size ps + data_size rs
data_size-append [] rs = omega arith
data_size-append (p ∷ ps) rs = omega (arith, data_size-append ps rs)

pub new_queue-IsValid : (n : ℕ) → IsValid (new_queue n)
unfolding new_queue
new_queue-IsValid n = record { counted = refl; word = omega arith }

-- `push` keeps the running total equal to the bytes that wait, if the limit and one packet more fit
-- a `size_t`.
pub push-IsValid :
    (q : PacketsRawQueue) (p : Npacket)
    → q.total_limit + length p.bytes < 2 ^ 32
    → IsValid q
    → IsValid (push q p)
unfolding push
push-IsValid q p h v = ground (arith, data_size-append q.packets (p ∷ []))

-- `pop` takes the oldest packet, and keeps the total.
pub pop-IsValid :
    (q q' : PacketsRawQueue) (p : Npacket) (t : ℤ)
    → IsValid q
    → pop q t ≡ some (p, q')
    → IsValid q' × (q.packets ≡ p ∷ q'.packets) × (q'.total_limit ≡ q.total_limit)
unfolding pop
pop-IsValid q q' p t v e = ground arith

-- The queue holds at most its limit and one packet more: a packet is refused only when the limit
-- has been passed already.
push_bound :
    (q : PacketsRawQueue) (p : Npacket)
    → q.total_limit + length p.bytes < 2 ^ 32
    → IsValid q
    → (q.total_data_size ≤ q.total_limit
        → data_size (push q p).packets ≤ q.total_limit + length p.bytes)
      × ((push q p).packets
          ≡ (if leb q.total_data_size q.total_limit then q.packets ++ p ∷ [] else q.packets))
unfolding push
push_bound q p h v = (λ k. ground (arith, data_size-append q.packets (p ∷ [])), ground arith)

-- `drop_front` on a queue that is not empty takes the oldest packet away and counts it twice: as
-- lost, and as sent.
pub drop_front_counts_twice :
    (q : PacketsRawQueue) (p : Npacket) (rest : List Npacket) (t : ℤ)
    → q.packets ≡ p ∷ rest
    → (q' : PacketsRawQueue) × (drop_front q t ≡ some q')
      × (q'.packets ≡ rest)
      × (q'.stat.packets_lost ≡ add q.stat.packets_lost p.in_time (pos 1))
      × (q'.stat.out_packets ≡ add q.stat.out_packets t (pos 1))
      × (q'.stat.out_counter ≡ add q.stat.out_counter t (payload (length p.bytes)))
unfolding drop_front packet_lost packet_out
drop_front_counts_twice q p rest t e = (
  record q {
    packets = rest;
    total_data_size = sub_u32 q.total_data_size (length p.bytes);
    stat = packet_out (packet_lost q.stat p.in_time) t p.in_time (length p.bytes);
  },
  ground arith,
  refl,
  refl,
  refl,
  refl,
)

-- A client's calls: an arrival, a departure, a loss.
pub data Call : Type 0 where
  pushes : Npacket → Call
  pops drops : ℤ → Call

-- The packets that came out, in order, with the queue that is left; `none` where a call met an empty
-- queue.
unfoldable pub run : PacketsRawQueue → List Call → Option (List Npacket × PacketsRawQueue)
run q [] = some ([], q)
run q (pushes p ∷ calls) = run (push q p) calls
run q (pops t ∷ calls) = do out ← pop q t; rest ← run out.1 calls; some (out.0 ∷ rest.0, rest.1)
run q (drops t ∷ calls) = do
  p ← front q
  left ← drop_front q t
  rest ← run left calls
  some (p ∷ rest.0, rest.1)

-- The packets of the calls that arrive, and those of them that find room.
abbrev pub arrivals : List Call → List Npacket
arrivals [] = []
arrivals (pushes p ∷ calls) = p ∷ arrivals calls
arrivals (pops t ∷ calls) = arrivals calls
arrivals (drops t ∷ calls) = arrivals calls

push-cases :
    (q : PacketsRawQueue) (p : Npacket)
    → ((push q p).packets ≡ q.packets ++ p ∷ []) ⊎ ((push q p).packets ≡ q.packets)
unfolding push
push-cases q p = ground arith

pub pop_takes :
    (q q' : PacketsRawQueue) (p : Npacket) (t : ℤ)
    → pop q t ≡ some (p, q')
    → q.packets ≡ p ∷ q'.packets
unfolding pop
pop_takes q q' p t e = ground arith

pub drop_front_takes :
    (q q' : PacketsRawQueue) (p : Npacket) (t : ℤ)
    → front q ≡ some p
    → drop_front q t ≡ some q'
    → q.packets ≡ p ∷ q'.packets
unfolding drop_front
drop_front_takes q q' p t h e = ground arith

-- First in, first out, with nothing made up, repeated or reordered: whatever the calls, the packets
-- that have come out followed by those still queued are the packets queued at first followed by some
-- of the arrivals in the order of their arrival.
pub run_fifo :
    (calls : List Call) (q q' : PacketsRawQueue) (out : List Npacket)
    → run q calls ≡ some (out, q')
    → (taken : List Npacket) × Sublistᴰ taken (arrivals calls)
      × (out ++ q'.packets ≡ q.packets ++ taken)
unfolding run
run_fifo [] q q' out e = ([], Sublistᴰ.slnil, ground (arith, append-nil q.packets))
run_fifo (pushes p ∷ calls) q q' out e =
    let (taken, sub, eq) = run_fifo calls (push q p) q' out e in
    elim (push-cases q p) [
      | inl h ↦ (
        p ∷ taken,
        Sublistᴰ.cons-cons refl sub,
        ground (arith, append_assoc q.packets (p ∷ []) taken),
      )
      | inr h ↦ (taken, Sublistᴰ.cons sub, ground arith)
    ]
run_fifo (pops t ∷ calls) q q' out e =
    let (o, eo, e1) = >>=-eq-some (pop q t) _ e in
    let (rest, er, e2) = >>=-eq-some (run o.1 calls) _ e1 in
    let (taken, sub, eq) = run_fifo calls o.1 rest.1 rest.0 er in
    (taken, sub, ground (arith, pop_takes q o.1 o.0 t eo))
run_fifo (drops t ∷ calls) q q' out e =
    let (p, ep, e0) = >>=-eq-some (front q) _ e in
    let (left, eo, e1) = >>=-eq-some (drop_front q t) _ e0 in
    let (rest, er, e2) = >>=-eq-some (run left calls) _ e1 in
    let (taken, sub, eq) = run_fifo calls left rest.1 rest.0 er in
    (taken, sub, ground (arith, drop_front_takes q left p t ep eo))

-- `drop_front` succeeds where there is a packet to drop.
pub drop_front-some :
    (q : PacketsRawQueue) (p : Npacket) (t : ℤ)
    → front q ≡ some p
    → (q' : PacketsRawQueue) × (drop_front q t ≡ some q') × (q.packets ≡ p ∷ q'.packets)
unfolding front
drop_front-some q p t h =
    let e : q.packets ≡ p ∷ tail q.packets = ground arith in
    let (q', d, k, l, o, c) = drop_front_counts_twice q p (tail q.packets) t e in
    (q', d, ground arith)
