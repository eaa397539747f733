-- ===== src/Client.antt =====
-- src/client.h: the client of the configuration protocol, over a broadcasting socket.
pub mod Message
pub mod Laws
pub mod Exchange
mod Tests
use virtual_gw.Common.{ℕ, zero, suc, ◌+◌, Bool, false, none, some, List, [], if◌then◌else◌}
use virtual_gw.Common.Int.{ℤ, pos, pos_part}
use virtual_gw.Common.Text.{Text, codes}
use virtual_gw.Net.Winsock.{Winsock}
use virtual_gw.Net.Run.{Run, Socket, Outcome, returned, threw, undefined, give, stuck, ◌>>=◌}
use virtual_gw.Net.Socket.{bind, setopt, canread, sol_socket}
use virtual_gw.Net.Transfer.{sendto, receivefrom}
use virtual_gw.Net.Close.{create, destroy}
use virtual_gw.Common.Result.{Result, ok, thrown}
use virtual_gw.Hl.Params.{Regexp, read_text, read_int}
use virtual_gw.Vgw.{vgw_port}
use virtual_gw.Client.Message.{discovery_bytes, command_bytes, reply_result}

-- What `read` leaves of a parameter that is not required.
unfoldable pub left_by : {A : Type 0} → Result (Bool × A) → A → A
left_by (ok r) param = r.1
left_by (thrown e) param = param

-- `SO_BROADCAST`
abbrev pub so_broadcast : ℤ
so_broadcast = pos 0x20

-- The members but the socket.
pub record VgwClient : Type 0 where
  pub server_name : Text
  pub all_params : Text

module _ {W : Type 0} (os : Winsock W) (match : Regexp) where
  -- The body of the constructor.
  unfoldable pub set_up : Run W ℤ
  set_up = do
    result ← setopt os sol_socket so_broadcast (pos 1)
    bind os (record { host = 0; port = vgw_port + 1 })

  -- Where the body throws, the socket is destroyed again.
  unfoldable pub settled :
      VgwClient → ℤ → Outcome ℤ × Socket × W → Outcome (VgwClient × Socket) × ℤ × W
  settled c counter (returned r, s, w) = (returned (c, s), counter, w)
  settled c counter (threw e, s, w) = let d = destroy os s counter w in (threw e, d.0, d.1)
  settled c counter (undefined, s, w) = (undefined, counter, w)

  unfoldable pub made : VgwClient → Outcome Socket × ℤ × W → Outcome (VgwClient × Socket) × ℤ × W
  made c (returned s, counter, w) = settled c counter (set_up s w)
  made c (threw e, counter, w) = (threw e, counter, w)
  made c (undefined, counter, w) = (undefined, counter, w)

  -- The constructor, on the command line.
  unfoldable pub new_client : Text → ℤ → W → Outcome (VgwClient × Socket) × ℤ × W
  new_client command_line counter w =
      let name =
        left_by
          (read_text match command_line (codes "-name=([-_A-Za-z0-9]+)") (codes "unknown") false)
          (codes "unknown") in
      made (record { server_name = name; all_params = command_line })
        (create os (pos 2) (pos 2) (pos 0) counter w)

  -- `dispatch`; a read past the end of the data is undefined.
  unfoldable pub dispatch : List ℕ → Run W ℤ
  dispatch message = elim (reply_result message) [ some r ↦ give r | none ↦ stuck ]

  -- The loop of `request` with so many turns left.
  unfoldable pub request_loop : List ℕ → ℕ → Run W ℤ
  request_loop request zero = give (pos 0)
  request_loop request (suc n) = do
    sent ← sendto os (record { host = 0xFFFFFFFF; port = vgw_port }) request
    readable ← canread os (pos 1000)
    if readable then (do r ← receivefrom os (pos 0); dispatch r.2) else request_loop request n

  -- `request`: no turn where the number is not positive.
  unfoldable pub request : VgwClient → List ℕ → Run W ℤ
  request c bytes =
      let n = left_by (read_int match c.all_params (codes "-t=([0-9]+)") (pos 4) false) (pos 4) in
      request_loop bytes (pos_part n)

  -- `left` is what the memory of the message held, and `request_id` the value of `rand`.
  unfoldable pub discovery : List ℕ → ℕ → VgwClient → Run W ℤ
  discovery left request_id c = request c (discovery_bytes left c.server_name request_id)

  unfoldable pub server_command : List ℕ → ℕ → VgwClient → Run W ℤ
  server_command left request_id c =
      let command = left_by (read_text match c.all_params (codes "-scmd(.*)") [] false) [] in
      request c (command_bytes left c.server_name request_id command)
