-- ===== src/Net/Respects.antt =====
-- Every method of `socket` respects a relation that holds over each call of the system.
use virtual_gw.Common.{ℕ, zero, suc, Bool, true, List, [], ◌∷◌}
use virtual_gw.Common.Int.{ℤ}
use virtual_gw.Net.Winsock.{Winsock}
use virtual_gw.Net.Address.{Address}
use virtual_gw.Net.Socket
use virtual_gw.Net.Transfer
use virtual_gw.Net.Close
use virtual_gw.Net.Calls
use virtual_gw.Net.Calls.{
  Change, IsFrame, Respects, frame_rules, give-Respects, if-Respects, then-Respects,
}

module _ {W : Type 0} (os : Winsock W) (R : Change W) (fr : IsFrame os R) where
  pub listen-Respects : (n : ℤ) → Respects os R (Socket.listen os n)
  unfolding Socket.listen
  listen-Respects n = search frame_rules depth 40

  pub accept-Respects : Respects os R (Socket.accept os)
  unfolding Socket.accept
  accept-Respects = search frame_rules depth 40

  pub bind-Respects : (a : Address) → Respects os R (Socket.bind os a)
  unfolding Socket.bind
  bind-Respects a = search frame_rules depth 40

  pub getaddress-Respects : Respects os R (Socket.getaddress os)
  unfolding Socket.getaddress
  getaddress-Respects = search frame_rules depth 40

  pub getpeeraddress-Respects : Respects os R (Socket.getpeeraddress os)
  unfolding Socket.getpeeraddress
  getpeeraddress-Respects = search frame_rules depth 40

  pub connect-Respects : (a : Address) → Respects os R (Socket.connect os a)
  unfolding Socket.connect Socket.checked
  connect-Respects a = search frame_rules depth 40

  pub canread-Respects : (t : ℤ) → Respects os R (Socket.canread os t)
  unfolding Socket.canread Socket.ready
  canread-Respects t = search frame_rules depth 40

  pub canwrite-Respects : (t : ℤ) → Respects os R (Socket.canwrite os t)
  unfolding Socket.canwrite Socket.ready
  canwrite-Respects t = search frame_rules depth 40

  pub getopt-Respects : (l n : ℤ) → Respects os R (Socket.getopt os l n)
  unfolding Socket.getopt
  getopt-Respects l n = search frame_rules depth 40

  pub setopt-Respects : (l n v : ℤ) → Respects os R (Socket.setopt os l n v)
  unfolding Socket.setopt Socket.checked
  setopt-Respects l n v = search frame_rules depth 40

  pub setopt_bytes-Respects : (l n : ℤ) (v : List ℕ) → Respects os R (Socket.setopt_bytes os l n v)
  unfolding Socket.setopt_bytes Socket.checked
  setopt_bytes-Respects l n v = search frame_rules depth 40

  pub shutdown-Respects : (how : ℤ) → Respects os R (Socket.shutdown os how)
  unfolding Socket.shutdown Socket.checked
  shutdown-Respects how = search frame_rules depth 40

  pub send-Respects : (bytes : List ℕ) → Respects os R (Transfer.send os bytes)
  unfolding Transfer.send
  send-Respects [] = search frame_rules depth 40
  send-Respects (b ∷ bs) = search frame_rules depth 40

  pub sendto-Respects : (a : Address) (bytes : List ℕ) → Respects os R (Transfer.sendto os a bytes)
  unfolding Transfer.sendto
  sendto-Respects a [] = search frame_rules depth 40
  sendto-Respects a (b ∷ bs) = search frame_rules depth 40

  pub receive-Respects : (buffer : List ℕ) → Respects os R (Transfer.receive os buffer)
  unfolding Transfer.receive Transfer.pending Transfer.touch_if
  receive-Respects buffer = search frame_rules depth 40

  pub receivefrom-Respects : (flags : ℤ) → Respects os R (Transfer.receivefrom os flags)
  unfolding Transfer.receivefrom Socket.getopt
  receivefrom-Respects flags = search frame_rules depth 40

  pub close-Respects : Respects os R (Socket.close os)
  unfolding Socket.close
  close-Respects = search frame_rules depth 40

  pub is_timeout-Respects : Respects os R (Socket.is_timeout os)
  unfolding Socket.is_timeout
  is_timeout-Respects = search frame_rules depth 40

  pub set_timeout-Respects : (timeout : ℕ) → Respects os R (Socket.set_timeout os timeout)
  unfolding Socket.set_timeout
  set_timeout-Respects timeout = record { holds = λ s w. fr.over_timeout s w timeout }

  pub peer_closed-Respects : Respects os R (Close.peer_closed os)
  unfolding Close.peer_closed
  peer_closed-Respects = search (frame_rules, canread-Respects, receive-Respects) depth 40

  pub check_time-Respects : (start : ℕ) → Respects os R (Close.check_time os start)
  unfolding Close.check_time Close.get_tick
  check_time-Respects start = search frame_rules depth 40

  pub wait_closed-Respects : (fuel start : ℕ) → Respects os R (Close.wait_closed os fuel start)
  unfolding Close.wait_closed
  wait_closed-Respects zero start = search frame_rules depth 40
  wait_closed-Respects (suc fuel) start =
      Calls.bind-Respects peer_closed-Respects
        (λ closed.
          if-Respects closed (give-Respects true fr)
            (then-Respects (check_time-Respects start) (wait_closed-Respects fuel start) fr))
        fr

  pub end_shutdown-Respects : (closed : Bool) → Respects os R (Close.end_shutdown os closed)
  unfolding Close.end_shutdown
  end_shutdown-Respects closed =
      search (frame_rules, setopt_bytes-Respects, close-Respects) depth 40

  pub graceful_shutdown-Respects : (fuel : ℕ) → Respects os R (Close.graceful_shutdown os fuel)
  unfolding Close.graceful_shutdown Close.get_tick
  graceful_shutdown-Respects fuel =
      search (frame_rules, shutdown-Respects, wait_closed-Respects, end_shutdown-Respects) depth 40
