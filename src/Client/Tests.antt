-- ===== src/Client/Tests.antt =====
-- An exchange between the client and the server, run.
use virtual_gw.Common.{
  ℕ, ◌≡◌, refl, false, ◌&&◌, none, some, List, [], ◌∷◌, ◌++◌, arith, if◌then◌else◌, drop, replicate,
}
use virtual_gw.Common.Int.{pos}
use virtual_gw.Common.Text.{codes, text_eq}
use virtual_gw.Client.Message.{discovery_bytes, command_bytes, reply_result}
use virtual_gw.Client.Exchange.{discovery_answered, command_delivered, answered}
use virtual_gw.Vgw.{Served, on_vgw, reply_bytes, caught, run_command}
use virtual_gw.Vgw.Frames.{Answer}
use virtual_gw.Hl.Params.{Regexp}

abbrev match : Regexp
match pattern subject =
    if text_eq pattern (codes "^[[:space:]]*stop[[:space:]]*$") && text_eq subject (codes "stop")
    then some (λ i. [])
    else none

abbrev served : Served
served = record { nq_list = []; ctrl_break_pressed = false }

-- A frame with zeros in its headers, and the message behind them.
abbrev carrying : List ℕ → List ℕ
carrying message = replicate 42 0 ++ (message ++ 7 ∷ [])

abbrev discovery_frame : List ℕ
discovery_frame = carrying (discovery_bytes (replicate 32 9) (codes "gate") 5)

discovery_answered_example :
    (frame : List ℕ) × (on_vgw match
        (pos 0)
        (replicate 32 0)
        6
        (codes "gate")
        77
        served
        discovery_frame
        34
      ≡ some (none, served, frame ∷ [], 1))
    × Answer 77 discovery_frame 34 (reply_bytes (replicate 32 0) (codes "gate") 6 1) frame
    × (reply_result (drop 42 frame) ≡ some (pos 1))
discovery_answered_example =
    discovery_answered match (pos 0) (replicate 32 9) (replicate 32 0) 5 6 (codes "gate") 77 served
      discovery_frame 34 (7 ∷ []) (omega arith) refl (omega arith) (omega arith) (omega arith) refl

abbrev command_frame : List ℕ
command_frame = carrying (command_bytes (replicate 32 9) (codes "gate") 5 (codes "stop"))

command_delivered_example :
    on_vgw match (pos 0) (replicate 32 0) 6 (codes "gate") 77 served command_frame 34
    ≡ answered
        (replicate 32 0)
        6
        (codes "gate")
        77
        command_frame
        34
        (caught (run_command match (pos 0) (codes "stop") served))
command_delivered_example =
    command_delivered match (pos 0) (replicate 32 9) (replicate 32 0) 5 6 (codes "gate")
      (codes "stop") 77 served command_frame 34 (7 ∷ []) (omega arith) refl (omega arith) refl
      (omega arith) refl
