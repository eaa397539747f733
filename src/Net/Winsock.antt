-- ===== src/Net/Winsock.antt =====
-- The calls of Windows that src/net and its clients make, over an unknown state `W` of the system.
-- A call gives its result, what it writes through its pointers, and the system's next state.
use virtual_gw.Common.{ℕ, ◌-◌, ◌^◌, Option, List}
use virtual_gw.Common.Int.{ℤ, negsuc}
use virtual_gw.Common.Text.{Text}

-- `sockaddr_in`: the port and the host are in network order.
pub record SockaddrIn : Type 0 where
  pub sin_family : ℕ
  pub sin_port : ℕ
  pub s_addr : ℕ

abbrev pub af_inet : ℕ
af_inet = 2

abbrev pub socket_error : ℤ
socket_error = negsuc 0

-- A `SOCKET` is a number of 32 bits; the failing ones of `socket` and `accept` are the greatest.
abbrev pub invalid_socket : ℕ
invalid_socket = 2 ^ 32 - 1

-- What `WSARecv` and `WSAGetOverlappedResult` give: the call's result, the number of bytes that
-- they write through their pointer (0 where they do not), and the buffer.
pub record Transferred : Type 0 where
  pub result : ℤ
  pub number : ℕ
  pub buffer : List ℕ

pub record Winsock (W : Type 0) : Type 0 where
  pub message_box : W → Text → Text → W
  -- The version asked for, and the result with the version that was granted.
  pub wsa_startup : W → ℕ → (ℤ × ℕ) × W
  pub wsa_cleanup : W → ℤ × W
  pub wsa_get_last_error : W → ℤ
  -- The system's text for an error, if it has one.
  pub format_message : W → ℤ → Option Text
  -- `inet_addr`, with INADDR_NONE for a text that is no address.
  pub inet_addr : Text → ℕ
  pub get_tick_count : W → ℕ × W
  pub socket : W → ℤ → ℤ → ℤ → ℕ × W
  pub listen : W → ℕ → ℤ → ℤ × W
  pub accept : W → ℕ → (ℕ × SockaddrIn) × W
  pub bind : W → ℕ → SockaddrIn → ℤ × W
  pub connect : W → ℕ → SockaddrIn → ℤ × W
  pub getsockname : W → ℕ → (ℤ × SockaddrIn) × W
  pub getpeername : W → ℕ → (ℤ × SockaddrIn) × W
  pub send : W → ℕ → List ℕ → ℤ → ℤ × W
  pub sendto : W → ℕ → List ℕ → ℤ → SockaddrIn → ℤ × W
  pub ioctlsocket_fionread : W → ℕ → ℤ × W
  pub wsa_create_event : W → ℕ × W
  pub wsa_recv : W → ℕ → ℕ → List ℕ → Transferred × W
  pub wsa_get_overlapped_result : W → ℕ → ℕ → List ℕ → Transferred × W
  pub wsa_wait : W → ℕ → ℕ → W
  pub wsa_reset_event : W → ℕ → W
  pub wsa_close_event : W → ℕ → W
  -- At most so many bytes, and the sender.
  pub recvfrom : W → ℕ → ℤ → ℤ → (ℤ × List ℕ × SockaddrIn) × W
  -- `select` on one socket, with the seconds and the microseconds of the `timeval`.
  pub select_read : W → ℕ → ℤ → ℤ → ℤ × W
  pub select_write : W → ℕ → ℤ → ℤ → ℤ × W
  pub getsockopt : W → ℕ → ℤ → ℤ → (ℤ × ℤ) × W
  pub setsockopt : W → ℕ → ℤ → ℤ → List ℕ → ℤ × W
  pub shutdown : W → ℕ → ℤ → ℤ × W
  pub closesocket : W → ℕ → ℤ × W
