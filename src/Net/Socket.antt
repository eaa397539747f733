-- ===== src/Net/Socket.antt =====
-- The methods of `socket` in src/net/socket.cpp.
use virtual_gw.Common.{ℕ, Bool, false, not, ◌||◌, List, leb, ◌==◌, if◌then◌else◌}
use virtual_gw.Common.Int.{ℤ, pos, eqb_ℤ, bits32, mul_int, div_int}
use virtual_gw.Common.Words.{sub_u32, bytes32}
use virtual_gw.Net.Run.{look, returned, ◌>>=◌, Run, give, call, throw_last_error}
use virtual_gw.Net.Winsock.{socket_error, invalid_socket, Winsock}
use virtual_gw.Net.Address.{sockaddr, address_in, Address}

abbrev pub sol_socket : ℤ
sol_socket = pos 0xffff

module _ {W : Type 0} (os : Winsock W) where
  -- A call whose result is the method's, unless it is `SOCKET_ERROR`.
  unfoldable pub checked : ℤ → Run W ℤ
  checked result = if eqb_ℤ result socket_error then throw_last_error os else give result

  unfoldable pub listen : ℤ → Run W ℤ
  listen backlog = do
    result ← call λ s w. os.listen w s backlog
    if eqb_ℤ result socket_error then throw_last_error os else give (pos 0)

  -- The new Winsock socket, and the peer's address.
  unfoldable pub accept : Run W (ℕ × Address)
  accept = do
    r ← call λ s w. os.accept w s
    if r.0 == invalid_socket
        then throw_last_error os
        else give (r.0, record { host = r.1.s_addr; port = r.1.sin_port })

  unfoldable pub bind : Address → Run W ℤ
  bind addr = do
    result ← call λ s w. os.bind w s (sockaddr addr)
    if eqb_ℤ result socket_error then throw_last_error os else give (pos 0)

  unfoldable pub getaddress : Run W Address
  getaddress = do
    r ← call λ s w. os.getsockname w s
    if eqb_ℤ r.0 socket_error then throw_last_error os else give (address_in r.1)

  unfoldable pub getpeeraddress : Run W Address
  getpeeraddress = do
    r ← call λ s w. os.getpeername w s
    if not (eqb_ℤ r.0 (pos 0)) then throw_last_error os else give (address_in r.1)

  unfoldable pub connect : Address → Run W ℤ
  connect addr = do result ← call λ s w. os.connect w s (sockaddr addr); checked result

  -- `canread` and `canwrite`, with a time in milliseconds: it goes whole into the seconds and whole
  -- into the microseconds.
  unfoldable pub ready : ℤ → Run W Bool
  ready res = if eqb_ℤ res socket_error then throw_last_error os else give (eqb_ℤ res (pos 1))

  unfoldable pub canread : ℤ → Run W Bool
  canread timeout = do
    res ← call λ s w. os.select_read w s (div_int timeout (pos 1000)) (mul_int timeout (pos 1000))
    ready res

  unfoldable pub canwrite : ℤ → Run W Bool
  canwrite timeout = do
    res ← call λ s w. os.select_write w s (div_int timeout (pos 1000)) (mul_int timeout (pos 1000))
    ready res

  unfoldable pub getopt : ℤ → ℤ → Run W ℤ
  getopt level optname = do
    r ← call λ s w. os.getsockopt w s level optname
    if eqb_ℤ r.0 socket_error then throw_last_error os else give r.1

  unfoldable pub setopt_bytes : ℤ → ℤ → List ℕ → Run W ℤ
  setopt_bytes level optname value = do
    result ← call λ s w. os.setsockopt w s level optname value
    checked result

  unfoldable pub setopt : ℤ → ℤ → ℤ → Run W ℤ
  setopt level optname value = do
    result ← call λ s w. os.setsockopt w s level optname (bytes32 (bits32 value))
    checked result

  unfoldable pub shutdown : ℤ → Run W ℤ
  shutdown how = do result ← call λ s w. os.shutdown w s how; checked result

  -- `close`; a `SOCKET` that is `SOCKET_ERROR` is `INVALID_SOCKET`.
  unfoldable pub close : Run W ℤ
  close = do
    socket ← look λ s. s.s
    if socket == 0 || socket == invalid_socket
        then give (pos 0)
        else call (λ s w. os.closesocket w s)

  unfoldable pub set_timeout : ℕ → Run W (Unit {0})
  set_timeout timeout s w = (returned tt, record s { timeout = timeout }, w)

  -- `is_timeout`: the clock is read only where there is a timeout.
  unfoldable pub is_timeout : Run W Bool
  is_timeout = do
    timeout ← look λ s. s.timeout
    if timeout == 0 then give false else (do
      now ← call λ s w. os.get_tick_count w
      last_transfer ← look λ s. s.last_transfer
      give (leb timeout (sub_u32 now last_transfer)))
