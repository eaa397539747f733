-- ===== src/Vgw/Tests.antt =====
-- Runs of the server, and its laws at inputs that meet their hypotheses.
use virtual_gw.Common.{
  ℕ, ◌≡◌, refl, false, none, some, List, [], ◌∷◌, ◌++◌, if◌then◌else◌, replicate,
}
use virtual_gw.Common.Int.{pos}
use virtual_gw.Common.Words.{bytes32}
use virtual_gw.Common.Text.{codes, text_eq}
use virtual_gw.Hl.Params.{Regexp}
use virtual_gw.Nqueue.{new_nqueue}
use virtual_gw.Dispatcher.Table.{find}
use virtual_gw.Vgw.{vgw_protocol_id, Served, queue_commands}
use virtual_gw.Vgw.Laws.{queue_commands_local}

-- A matcher that reads `qsize 500` only.
abbrev match : Regexp
match pattern subject =
    if text_eq pattern (codes "^qsize +([0-9]+)") then some (λ i. codes "500") else none

abbrev served : Served
served = record {
  nq_list = (codes "fast", new_nqueue) ∷ (codes "slow", new_nqueue) ∷ [];
  ctrl_break_pressed = false;
}

queue_commands_local_example :
    find
      (codes "slow")
      (queue_commands match (pos 0) (codes "fast") (codes "qsize 500") served).1.nq_list
    ≡ find (codes "slow") served.nq_list
unfolding text_eq
queue_commands_local_example =
    queue_commands_local match (pos 0) (codes "fast") (codes "slow") (codes "qsize 500") served refl

-- A packet for a server of the name "other".
abbrev for_other : List ℕ
for_other =
    replicate 12 0
    ++ (8
        ∷ 0
        ∷ 0x45
        ∷ (replicate 8 0
            ++ (17
                ∷ (replicate 12 0
                    ++ (7
                        ∷ 215
                        ∷ (replicate 4 0
                            ++ (bytes32 vgw_protocol_id ++ (codes "other" ++ replicate 32 0))))))))
