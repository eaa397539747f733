-- ===== src/Net/Transfer.antt =====
-- The methods of `socket` in src/net/socket.cpp that transfer data.
use virtual_gw.Common.{
  ℕ, ◌-◌, ◌^◌, List, [], ◌∷◌, ◌++◌, ◌==◌, if◌then◌else◌, length, take, replicate,
}
use virtual_gw.Common.Int.{ℤ, pos, pos_part, eqb_ℤ}
use virtual_gw.Common.Words.{htons}
use virtual_gw.Net.Run.{
  ◌>>◌, look, peek, Run, give, stuck, call, call_only, throw_last_error, touch, ◌>>=◌,
}
use virtual_gw.Net.Winsock.{socket_error, Winsock}
use virtual_gw.Net.Address.{sockaddr, Address}
use virtual_gw.Net.Socket.{sol_socket, ready, getopt}

abbrev pub so_max_msg_size : ℕ
so_max_msg_size = 0x2003

-- `MSG_DONTROUTE`
abbrev pub msg_dontroute : ℤ
msg_dontroute = pos 4

abbrev pub wsa_io_pending : ℤ
wsa_io_pending = pos 997

abbrev pub wsa_infinite : ℕ
wsa_infinite = 2 ^ 32 - 1

-- `resize` of a `vector< char >`.
unfoldable pub resize : ℕ → List ℕ → List ℕ
resize n buffer = take n (buffer ++ replicate n 0)

module _ {W : Type 0} (os : Winsock W) where
  -- `send`; `front()` of no data is undefined.
  unfoldable pub send : List ℕ → Run W ℤ
  send [] = stuck
  send (b ∷ bs) = do
    result ← call λ s w. os.send w s (b ∷ bs) msg_dontroute
    if eqb_ℤ result socket_error then throw_last_error os else (do touch os; give result)

  unfoldable pub sendto : Address → List ℕ → Run W ℤ
  sendto addr [] = stuck
  sendto addr (b ∷ bs) = do
    sent_number ← call λ s w. os.sendto w s (b ∷ bs) (pos 0) (sockaddr addr)
    if eqb_ℤ sent_number socket_error then throw_last_error os else (do touch os; give sent_number)

  -- The end of a `receive`: what was transferred, and `data` cut to it.
  unfoldable pub touch_if : ℕ → Run W (Unit {0})
  touch_if number = if number == 0 then give tt else touch os

  -- The branch that waits for the overlapped operation.
  unfoldable pub pending : ℕ → List ℕ → Run W (List ℕ)
  pending event buffer = do
    timeout ← look λ s. s.timeout
    call_only λ s w. os.wsa_wait w event (if timeout == 0 then wsa_infinite else timeout)
    call_only λ s w. os.wsa_reset_event w event
    r ← call λ s w. os.wsa_get_overlapped_result w s event buffer
    call_only λ s w. os.wsa_close_event w event
    touch_if r.number
    give (resize r.number r.buffer)

  -- `receive`: its result, and `data`. Where it throws, `data` is left empty or as it was.
  unfoldable pub receive : List ℕ → Run W (ℤ × List ℕ)
  receive buffer = do
    ready ← call λ s w. os.ioctlsocket_fionread w s
    if eqb_ℤ ready socket_error then throw_last_error os else (do
      event ← call λ s w. os.wsa_create_event w
      r ← call λ s w. os.wsa_recv w s event (resize so_max_msg_size buffer)
      received ←
          (if eqb_ℤ r.result socket_error
            then (do
              error ← peek λ w. os.wsa_get_last_error w
              if eqb_ℤ error wsa_io_pending
                  then pending event r.buffer
                  else (do call_only λ s w. os.wsa_close_event w event; throw_last_error os))
            else (do
              touch_if r.number
              call_only λ s w. os.wsa_close_event w event
              give (resize r.number r.buffer)))
      give (pos (length received), received))

  -- `receivefrom`: its result, the sender, `data`. `front()` of no data is undefined.
  unfoldable pub receivefrom : ℤ → Run W (ℤ × Address × List ℕ)
  receivefrom flags = do
    length ← getopt os sol_socket (pos so_max_msg_size)
    r ← call λ s w. os.recvfrom w s length flags
    if eqb_ℤ r.0 socket_error then throw_last_error os else (do
      touch os
      let received = take (pos_part r.0) r.1
      if pos_part r.0 == 0
          then stuck
          else give (r.0, record { host = r.2.s_addr; port = htons r.2.sin_port }, received))
