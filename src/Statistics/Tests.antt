-- ===== src/Statistics/Tests.antt =====
-- Runs of the counters, and their laws at inputs that meet their hypotheses.
use virtual_gw.Common.{ℕ, ◌≡◌, refl, List, [], ◌∷◌, arith}
use virtual_gw.Common.Int.{pos}
use virtual_gw.Statistics.{TrCounter, add}
use virtual_gw.Statistics.Laws.{add_all, add_publishes}

-- A counter whose frame began at 1000 and holds 70.
abbrev running : TrCounter
running = record { last_time = pos 1000; frame_time = pos 500; value = pos 3; tmp_value = pos 70 }

abbrev events : List (ℕ × ℕ)
events = (1100, 20) ∷ (1499, 10) ∷ []

add_publishes_example :
    ((add_all running events).value ≡ pos 3)
    × ((add (add_all running events) (pos 1500) (pos 5)).value ≡ pos 100)
    × ((add (add_all running events) (pos 1500) (pos 5)).tmp_value ≡ pos 5)
add_publishes_example =
    add_publishes events running 1000 500 70 1500 (pos 5) refl refl refl (omega arith) (omega arith)
      (omega arith) ((omega arith, omega arith), ((omega arith, omega arith), tt)) (omega arith)
