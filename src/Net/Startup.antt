-- ===== src/Net/Startup.antt =====
-- `StartWinSock` and `StoptWinSock` in src/net/socket.cpp: Winsock is started for the first socket
-- and cleaned up behind the last one. `socket_counter` is an `int` of the process.
use virtual_gw.Common.{◌/◌, ◌%◌, not, ◌||◌, ◌==◌, if◌then◌else◌}
use virtual_gw.Common.Int.{ℤ, pos, eqb_ℤ, add_int, sub_int}
use virtual_gw.Common.Text.{codes}
use virtual_gw.Net.Winsock.{Winsock}

module _ {W : Type 0} (os : Winsock W) where
  -- What `StartWinSock` does for the first socket.
  unfoldable pub startup : W → W
  startup w =
      let r = os.wsa_startup w 0x0202 in
      if not (eqb_ℤ r.0.0 (pos 0))
      then os.message_box r.1 (codes "WSAStartup failed") (codes "StartWinSock")
      else if not (r.0.1 % 256 == 2) || not (r.0.1 / 256 % 256 == 2)
      then (os.wsa_cleanup
          (os.message_box r.1 (codes "WinSock wrong version") (codes "StartWinSock"))).1
      else r.1

  unfoldable pub cleanup : W → W
  cleanup w =
      let r = os.wsa_cleanup w in
      if eqb_ℤ r.0 (pos 0)
      then r.1
      else os.message_box r.1 (codes "WSACleanup() failed") (codes "StoptWinSock")

  unfoldable pub start_winsock : ℤ → W → ℤ × W
  start_winsock socket_counter w =
      let counter = add_int socket_counter (pos 1) in
      if not (eqb_ℤ counter (pos 1)) then (counter, w) else (counter, startup w)

  unfoldable pub stop_winsock : ℤ → W → ℤ × W
  stop_winsock socket_counter w =
      let counter = sub_int socket_counter (pos 1) in
      if not (eqb_ℤ counter (pos 0)) then (counter, w) else (counter, cleanup w)
