-- ===== src/Packets/Tests.antt =====
-- Runs of the packet queue, and its laws at inputs that meet their hypotheses.
use virtual_gw.Common.{ℕ, ◌≡◌, refl, some, List, [], ◌∷◌, ◌++◌, arith, replicate}
use virtual_gw.Common.Int.{pos}
use virtual_gw.Packets.{new_queue, push, front, pop, drop_front, Npacket, PacketsRawQueue}
use mathlib.Core.List.{Sublistᴰ}
use virtual_gw.Packets.Laws.{
  Call, pushes, pops, drops, run, arrivals, IsValid, new_queue-IsValid, push-IsValid, run_fifo,
}

abbrev packet : ℕ → Npacket
packet i = record { uid = pos i; in_time = pos 1000; bytes = replicate 60 i }

-- A queue of 100 bytes takes three packets of 60 bytes: the third is refused, since 120 bytes wait.
abbrev calls : List Call
calls =
    pushes (packet 1)
    ∷ pushes (packet 2)
    ∷ pushes (packet 3)
    ∷ drops (pos 1010)
    ∷ pops (pos 1020)
    ∷ []

abbrev with_two : PacketsRawQueue
with_two = push (push (new_queue 100) (packet 1)) (packet 2)

run_calls :
    (q : PacketsRawQueue) × (run (new_queue 100) calls ≡ some (packet 1 ∷ packet 2 ∷ [], q))
    × (q.packets ≡ [])
unfolding run push pop drop_front new_queue front
run_calls = (_, refl, refl)

run_fifo_example :
    (taken : List Npacket) × Sublistᴰ taken (arrivals calls)
    × ((packet 1 ∷ packet 2 ∷ []) ++ run_calls.0.packets ≡ (new_queue 100).packets ++ taken)
run_fifo_example = run_fifo calls (new_queue 100) run_calls.0 (packet 1 ∷ packet 2 ∷ []) run_calls.1

with_one-IsValid : IsValid (push (new_queue 100) (packet 1))
unfolding new_queue
with_one-IsValid = push-IsValid (new_queue 100) (packet 1) (omega arith) (new_queue-IsValid 100)

with_two-IsValid : IsValid with_two
unfolding new_queue push
with_two-IsValid =
    push-IsValid (push (new_queue 100) (packet 1)) (packet 2) (omega arith) with_one-IsValid

pop_two : (q : PacketsRawQueue) × (pop with_two (pos 1020) ≡ some (packet 1, q))
unfolding pop push new_queue
pop_two = (_, refl)
