-- ===== src/Net/Close.antt =====
-- The life of a `socket` in src/net/socket.cpp: its constructors, its orderly end, its destructor.
use virtual_gw.Common.{
  ℕ, zero, suc, Bool, true, false, not, Option, none, some, [], ◌++◌, leb, ◌==◌, if◌then◌else◌,
}
use virtual_gw.Common.Int.{ℤ, pos, eqb_ℤ}
use virtual_gw.Common.Words.{sub_u32, bytes16}
use virtual_gw.Common.Text.{codes}
use virtual_gw.Net.Run.{
  ◌>>◌, c_text, returned, Run, give, throw, call, throw_last_error, Outcome, Socket, ◌>>=◌,
}
use virtual_gw.Net.Winsock.{invalid_socket, Winsock}
use virtual_gw.Net.Startup.{start_winsock, stop_winsock}
use virtual_gw.Net.Socket.{sol_socket, canread, setopt_bytes, shutdown, close}
use virtual_gw.Net.Transfer.{receive}

abbrev pub so_linger : ℤ
so_linger = pos 0x80

abbrev pub hl_sd_send : ℤ
hl_sd_send = pos 1

module _ {W : Type 0} (os : Winsock W) where
  -- The constructor from a Winsock socket, on `socket_counter`.
  unfoldable pub adopt : ℕ → ℤ → W → Socket × ℤ × W
  adopt new_s socket_counter w =
      let started = start_winsock os socket_counter w in
      let tick = os.get_tick_count started.1 in
      (record { s = new_s; last_transfer = tick.0; timeout = 0 }, started.0, tick.1)

  -- The constructor that makes a Winsock socket. A constructor that throws leaves no object, and
  -- its destructor is not run.
  unfoldable pub create : ℤ → ℤ → ℤ → ℤ → W → Outcome Socket × ℤ × W
  create af type protocol socket_counter w =
      let started = start_winsock os socket_counter w in
      let made = os.socket started.1 af type protocol in
      let fresh : Socket = record { s = made.0; last_transfer = 0; timeout = 0 } in
      let failed : Outcome Socket × Socket × W = throw_last_error os fresh made.1 in
      let tick = os.get_tick_count made.1 in
      if made.0 == invalid_socket
      then (failed.0, started.0, failed.2)
      else (returned (record fresh { last_transfer = tick.0 }), started.0, tick.1)

  unfoldable pub destroy : Socket → ℤ → W → ℤ × W
  destroy socket socket_counter w = stop_winsock os socket_counter (close os socket w).2

  -- A turn of the loop in `graceful_shutdown`: whether the peer has closed.
  unfoldable pub peer_closed : Run W Bool
  peer_closed = do
    readable ← canread os (pos 10)
    if readable then (do r ← receive os []; give (eqb_ℤ r.0 (pos 0))) else give false

  unfoldable pub get_tick : Run W ℕ
  get_tick = call λ s w. os.get_tick_count w

  -- The check of the time, from `StartTimeout` on.
  unfoldable pub check_time : ℕ → Run W (Unit {0})
  check_time start = do
    now ← get_tick
    if leb 1000 (sub_u32 now start)
        then throw (c_text (codes "Client has not closed socket within 1 sec"))
        else give tt

  -- The loop; `false` where the fuel runs out.
  unfoldable pub wait_closed : ℕ → ℕ → Run W Bool
  wait_closed zero start = give false
  wait_closed (suc fuel) start = do
    closed ← peer_closed
    if closed then give true else (do check_time start; wait_closed fuel start)

  -- `graceful_shutdown` behind its loop; `none` where the fuel ran out.
  unfoldable pub end_shutdown : Bool → Run W (Option ℤ)
  end_shutdown closed = if not closed then give none else (do
    lingers ← setopt_bytes os sol_socket so_linger (bytes16 1 ++ bytes16 1)
    ended ← close os
    give (some (pos 1)))

  unfoldable pub graceful_shutdown : ℕ → Run W (Option ℤ)
  graceful_shutdown fuel = do
    result ← shutdown os hl_sd_send
    start ← get_tick
    closed ← wait_closed fuel start
    end_shutdown closed
