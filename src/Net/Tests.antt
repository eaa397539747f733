-- ===== src/Net/Tests.antt =====
-- Runs of src/net on a small system.
use virtual_gw.Common.{
  ℕ, ◌+◌, ◌-◌, ◌*◌, ◌%◌, ◌^◌, ◌≤◌, ◌≡◌, refl, ap, ◌≢◌, ◌↔◌, Bool, true, false, not, Option, none,
  some, List, [], ◌∷◌, arith, ◌==◌, if◌then◌else◌, length,
}
use virtual_gw.Common.Int.{pos, eqb_ℤ}
use virtual_gw.Net.Winsock.{af_inet, socket_error, SockaddrIn, Winsock}
use virtual_gw.Net.Error.{find_message, or_system, net_exception}
use virtual_gw.Net.Run.{
  returned, go_on, ◌>>◌, give, throw, call, throw_net, throw_last_error, touch, Socket, ◌>>=◌,
}
use virtual_gw.Net.Address.{address_of_text, ip_as_string}
use virtual_gw.Net.Calls.{
  Called, by_accept, by_bind, by_close_event, by_closesocket, by_connect, by_create_event,
  by_get_tick_count, by_getpeername, by_getsockname, by_getsockopt, by_ioctlsocket, by_listen,
  by_overlapped_result, by_recv, by_recvfrom, by_reset_event, by_select_read, by_select_write,
  by_send, by_sendto, by_setsockopt, by_shutdown, by_wait,
}
use virtual_gw.Protocols.Ip.{IpAddress}
use virtual_gw.Nfilter.Ip.{scan_ip}
use virtual_gw.Nfilter.Printed.{scan_ip-dotted}
use virtual_gw.Net.Method.{Method, session}
use virtual_gw.Net.Sessions.{IsClock}
use virtual_gw.Net.Timed.{transfer_timed, sent}
use virtual_gw.Net.Transfer.{send}
use virtual_gw.Net.Graceful.{TakesTime, graceful_shutdown_ends}
use virtual_gw.Net.Close.{
  graceful_shutdown, get_tick, wait_closed, peer_closed, check_time, end_shutdown, adopt, create,
  destroy,
}
use virtual_gw.Net.Balance.{
  Process, at_first, by_adopt, by_create, by_destroy, adopted, destroyed, IsStarting,
  winsock_balance, constructed,
}
use virtual_gw.Net.Laws.{ParsesDotted, address_of_text-ip_as_string, is_timeout_iff}
use virtual_gw.Net.Socket.{is_timeout, shutdown, checked, canread, ready}

-- A clock, whether Winsock is started, and the name of the last socket that was bound.
record TestWorld : Type 0 where
  clock : ℕ
  started : Bool
  name : SockaddrIn

abbrev no_name : SockaddrIn
no_name = record { sin_family = af_inet; sin_port = 0; s_addr = 0 }

abbrev later : TestWorld → TestWorld
later w = record w { clock = w.clock + 400 }

abbrev inet_addr_of : Option IpAddress → ℕ
inet_addr_of none = 2 ^ 32 - 1
inet_addr_of (some ip) = ip

-- Each call succeeds and each reading of the clock takes 400 milliseconds; a socket has nothing to
-- read. `listen` fails, with the error WSAEINVAL.
abbrev test_os : Winsock TestWorld
test_os = record {
  message_box = λ w a b. w;
  wsa_startup = λ w v. ((pos 0, v), record w { started = true });
  wsa_cleanup = λ w. (pos 0, record w { started = false });
  wsa_get_last_error = λ w. pos 10022;
  format_message = λ w e. none;
  inet_addr = λ t. inet_addr_of (scan_ip t);
  get_tick_count = λ w. (w.clock % 2 ^ 32, later w);
  socket = λ w af type protocol. (if eqb_ℤ af (pos 2) then 7 else 2 ^ 32 - 1, w);
  listen = λ w s n. (socket_error, w);
  accept = λ w s. ((8, no_name), w);
  bind = λ w s a. (pos 0, record w { name = a });
  connect = λ w s a. (pos 0, w);
  getsockname = λ w s. ((pos 0, w.name), w);
  getpeername = λ w s. ((pos 0, no_name), w);
  send = λ w s bytes flags. (pos (length bytes), w);
  sendto = λ w s bytes flags a. (pos (length bytes), w);
  ioctlsocket_fionread = λ w s. (pos 0, w);
  wsa_create_event = λ w. (1, w);
  wsa_recv = λ w s event buffer. (record { result = pos 0; number = 0; buffer = buffer }, w);
  wsa_get_overlapped_result =
      λ w s event buffer. (record { result = pos 0; number = 0; buffer = buffer }, w);
  wsa_wait = λ w event time. w;
  wsa_reset_event = λ w event. w;
  wsa_close_event = λ w event. w;
  recvfrom = λ w s size flags. ((pos 3, 1 ∷ 2 ∷ 3 ∷ [], no_name), w);
  select_read = λ w s sec usec. (pos 0, w);
  select_write = λ w s sec usec. (pos 0, w);
  getsockopt = λ w s level name. ((pos 0, pos 8192), w);
  setsockopt = λ w s level name bytes. (pos 0, w);
  shutdown = λ w s how. (pos 0, w);
  closesocket = λ w s. (pos 0, w);
}

abbrev test_world : TestWorld
test_world = record { clock = 5000; started = false; name = no_name }

abbrev test_socket : Socket
test_socket = record { s = 7; last_transfer = 100; timeout = 3000 }

abbrev some_methods : List Method
some_methods = Method.listen (pos 5) ∷ Method.send (1 ∷ 2 ∷ []) ∷ Method.is_timeout ∷ []

abbrev test_clock : TestWorld → ℕ
test_clock w = w.clock

test_clock-le : (s : ℕ) (w w' : TestWorld) → Called test_os s w w' → test_clock w ≤ test_clock w'
test_clock-le s w _ by_get_tick_count = omega arith
test_clock-le s w _ (by_listen n) = omega arith
test_clock-le s w _ by_accept = omega arith
test_clock-le s w _ (by_bind a) = omega arith
test_clock-le s w _ (by_connect a) = omega arith
test_clock-le s w _ by_getsockname = omega arith
test_clock-le s w _ by_getpeername = omega arith
test_clock-le s w _ (by_send bytes flags) = omega arith
test_clock-le s w _ (by_sendto bytes flags a) = omega arith
test_clock-le s w _ by_ioctlsocket = omega arith
test_clock-le s w _ by_create_event = omega arith
test_clock-le s w _ (by_recv event buffer) = omega arith
test_clock-le s w _ (by_overlapped_result event buffer) = omega arith
test_clock-le s w _ (by_wait event time) = omega arith
test_clock-le s w _ (by_reset_event event) = omega arith
test_clock-le s w _ (by_close_event event) = omega arith
test_clock-le s w _ (by_recvfrom size flags) = omega arith
test_clock-le s w _ (by_select_read sec usec) = omega arith
test_clock-le s w _ (by_select_write sec usec) = omega arith
test_clock-le s w _ (by_getsockopt level name) = omega arith
test_clock-le s w _ (by_setsockopt level name bytes) = omega arith
test_clock-le s w _ (by_shutdown how) = omega arith
test_clock-le s w _ by_closesocket = omega arith

test_os-IsClock : IsClock test_os test_clock
test_os-IsClock = record { shown = λ w. refl; forward = test_clock-le }

two_bytes_sent :
    send test_os (1 ∷ 2 ∷ []) test_socket test_world
    ≡ (returned (pos 2), record test_socket { last_transfer = 5000 }, later test_world)
unfolding send call touch ◌>>=◌ ◌>>◌ go_on give
two_bytes_sent = refl

transfer_timed_example :
    let r =
      session test_os some_methods
        (record test_socket { last_transfer = 5000 })
        (later test_world) in
    (t : ℕ) × (5000 ≤ t) × (t ≤ r.1.clock) × (r.0.last_transfer ≡ t % 2 ^ 32)
transfer_timed_example =
    transfer_timed test_os test_clock test_os-IsClock test_socket test_world
      (record test_socket { last_transfer = 5000 }) (later test_world)
      (sent (1 ∷ 2 ∷ []) (pos 2) test_socket test_world
        (record test_socket { last_transfer = 5000 }) (later test_world) two_bytes_sent)
      some_methods

-- Nothing to read: the loop throws after its third turn.
graceful_shutdown_clock : (graceful_shutdown test_os 1002 test_socket test_world).2.clock ≡ 6600
unfolding graceful_shutdown ◌>>=◌ ◌>>◌ go_on shutdown call checked give get_tick wait_closed
    peer_closed canread ready check_time throw end_shutdown
graceful_shutdown_clock = refl

-- Its clock shows each millisecond that passes.
test_os-TakesTime : TakesTime test_os test_clock test_clock 1 1
test_os-TakesTime = record {
  never_back = test_clock-le;
  reading_takes = λ w. omega arith;
  not_ahead = λ w. omega arith;
  not_behind = λ w. omega arith;
}

graceful_shutdown_ends_example :
    (graceful_shutdown test_os ((1000 + 1) * 1 + 1) test_socket test_world).0 ≢ returned none
graceful_shutdown_ends_example =
    graceful_shutdown_ends test_os test_clock test_os-IsClock test_clock 1 1 test_os-TakesTime
      test_socket test_world (omega (arith, graceful_shutdown_clock))

test_os-IsStarting : IsStarting test_os (λ w. w.started)
test_os-IsStarting = record {
  granted = λ w. (refl, refl);
  starts = λ w. refl;
  cleaned = λ w. refl;
  stops = λ w. refl;
  by_tick = λ w. refl;
  by_socket = λ w af type protocol. refl;
  by_closesocket = λ w s. refl;
}

test_os-ParsesDotted : ParsesDotted test_os
unfolding ParsesDotted
test_os-ParsesDotted a b c d ha hb hc hd = ap inet_addr_of (scan_ip-dotted a b c d ha hb hc hd)

address_of_text-ip_as_string_example :
    address_of_text test_os (ip_as_string (record { host = 0x7F000001; port = 0 })) 80 test_world
    ≡ returned (record { host = 0x0100007F; port = 80 })
address_of_text-ip_as_string_example =
    address_of_text-ip_as_string test_os (record { host = 0x7F000001; port = 0 }) 80 test_world
      test_os-ParsesDotted (omega arith)

is_timeout_iff_example :
    ((is_timeout test_os test_socket test_world).0 ≡ returned true) ↔ (3000 ≤ 5000 - 100)
is_timeout_iff_example =
    is_timeout_iff test_os test_socket test_world 5000 100 refl refl (omega arith) (omega arith)
      (omega arith)

-- A socket made of Winsock's, one that cannot be made, and the first destroyed.
abbrev one_socket : Process TestWorld
one_socket =
    adopted (record { socket_counter = pos 0; live = 0; failed = 0; world = test_world })
      (adopt test_os 7 (pos 0) test_world)

abbrev one_failed : Process TestWorld
one_failed =
    constructed one_socket
      (create test_os (pos 99) (pos 1) (pos 0) one_socket.socket_counter one_socket.world)

abbrev none_left : Process TestWorld
none_left =
    destroyed one_failed 0 (destroy test_os test_socket one_failed.socket_counter one_failed.world)

one_failed_live : one_failed.live ≡ 1
unfolding constructed create throw_last_error throw_net throw net_exception or_system find_message
one_failed_live = refl

winsock_balance_example :
    (0 + none_left.failed ≤ 3)
    × ((none_left.socket_counter ≡ pos (0 + none_left.failed))
        × (none_left.world.started ≡ not ((0 + none_left.failed) == 0)))
winsock_balance_example =
    winsock_balance test_os (λ w. w.started) test_os-IsStarting test_world 3 none_left refl
      (by_destroy 2 one_failed test_socket 0
        (by_create 1 one_socket (pos 99) (pos 1) (pos 0) (by_adopt 0 _ 7 at_first)) one_failed_live)
      (omega arith)
