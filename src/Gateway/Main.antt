-- ===== src/Gateway/Main.antt =====
-- `main` in src/gate_way.cpp: the run of the gateway.
use virtual_gw.Common.{ℕ, Bool, true, false, Option, none, some, List, [], ◌∷◌, ◌++◌, ◌>>=◌}
use virtual_gw.Common.Int.{ℤ}
use virtual_gw.Common.Result.{Result, ok, thrown, Exception}
use virtual_gw.Hl.Params.{Regexp}
use virtual_gw.Gateway.{Gateway, handle, Handled}
use virtual_gw.Gateway.CtrlBreak.{ctrl_handler, install}
use virtual_gw.Dhcp.{DhcpClient, Sent, send_discover, send_release}

-- What happens while the gateway runs: a read that fails, times out or brings a packet (with what
-- `handle` takes from outside), or an event of the console between two reads.
pub data Event : Type 0 where
  read_failed read_nothing : Event
  read_packet : (garbage : ℤ) (left : List ℕ) (request_id : ℕ) (time : ℤ) (packet : List ℕ) → Event
  console : ℕ → Event

-- How a run of the loop stands.
pub data Ending : Type 0 where
  running left_loop : Ending
  by_exception : Exception → Ending

abbrev pub Ran : Type 0
Ran = Ending × Gateway × List (List ℕ)

-- The frames sent before, in front of a run's.
unfoldable pub behind : List (List ℕ) → Option Ran → Option Ran
behind sent none = none
behind sent (some (e, g, more)) = some (e, g, sent ++ more)

-- The loop's condition on `ctrl_break_pressed`.
unfoldable pub unless : Bool → Gateway → Option Ran → Option Ran
unless true g rest = some (left_loop, g, [])
unless false g rest = rest

-- The body's outcome: an exception, or the rest of the run behind the frames sent.
unfoldable pub carry_on : (Gateway → Option Ran) → Option Handled → Option Ran
carry_on rest none = none
carry_on rest (some (some e, g, sent)) = some (by_exception e, g, sent)
carry_on rest (some (none, g, sent)) = behind sent (rest g)

-- The loop over the events: `none` is a read past the end of a packet.
unfoldable pub run_loop : Regexp → List Event → Gateway → Option Ran
run_loop match [] g = some (running, g, [])
run_loop match (read_failed ∷ es) g = some (left_loop, g, [])
run_loop match (read_nothing ∷ es) g = unless g.ctrl_break_pressed g (run_loop match es g)
run_loop match (read_packet garbage left request_id time packet ∷ es) g =
    unless g.ctrl_break_pressed g
      (carry_on (λ g'. run_loop match es g') (handle match garbage left request_id time g packet))
run_loop match (console event ∷ es) g =
    run_loop match es
      (record g { ctrl_break_pressed = (ctrl_handler event g.ctrl_break_pressed).1 })

-- Behind the loop: `send_release`, and the destructor of the client, which calls it again; an
-- exception goes to the destructor at once.
unfoldable pub leave : Ending → DhcpClient → Option Sent
leave running c = some (c, [])
leave left_loop c = do
  released ← send_release c
  destroyed ← send_release released.0
  some (destroyed.0, released.1 ++ destroyed.1)
leave (by_exception e) c = send_release c

-- The handler of the console is installed, and the loop runs.
unfoldable pub listen : Regexp → Result Bool → List Event → Gateway → Option Ran
listen match (thrown e) events g = some (by_exception e, g, [])
listen match (ok pressed) events g =
    run_loop match events (record g { ctrl_break_pressed = pressed })

-- The run of the gateway from `send_discover` to the end; `could_set` tells whether the console's
-- handler can be set.
unfoldable pub serve_all : Regexp → Bool → List Event → Gateway → Option Ran
serve_all match could_set events g = do
  discover ← send_discover g.dhcp_cln
  r ← listen match (install could_set) events (record g { dhcp_cln = discover.0 })
  left ← leave r.0 r.1.dhcp_cln
  some (r.0, record r.1 { dhcp_cln = left.0 }, discover.1 ++ (r.2 ++ left.1))
