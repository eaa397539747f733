-- ===== src/Net/Method.antt =====
-- The methods of `socket` in src/net/socket.h as values: a session is a sequence of them.
use virtual_gw.Common.{ℕ, List, [], ◌∷◌}
use virtual_gw.Common.Int.{ℤ}
use virtual_gw.Net.Winsock.{Winsock}
use virtual_gw.Net.Run.{Run, give, Socket, ◌>>=◌}
use virtual_gw.Net.Address.{Address}
use virtual_gw.Net.Socket
use virtual_gw.Net.Transfer
use virtual_gw.Net.Close

pub data Method : Type 0 where
  listen : ℤ → Method
  accept : Method
  bind : Address → Method
  getaddress : Method
  getpeeraddress : Method
  connect : Address → Method
  send : List ℕ → Method
  sendto : Address → List ℕ → Method
  receive : List ℕ → Method
  receivefrom : ℤ → Method
  canread : ℤ → Method
  canwrite : ℤ → Method
  getopt : ℤ → ℤ → Method
  setopt : ℤ → ℤ → ℤ → Method
  setopt_bytes : ℤ → ℤ → List ℕ → Method
  shutdown : ℤ → Method
  close : Method
  graceful_shutdown : ℕ → Method
  is_timeout : Method
  set_timeout : ℕ → Method

module _ {W : Type 0} (os : Winsock W) where
  unfoldable pub forget : {A : Type 0} → Run W A → Run W (Unit {0})
  forget m = m >>= λ a. give tt

  unfoldable pub perform : Method → Run W (Unit {0})
  perform (Method.listen backlog) = forget (Socket.listen os backlog)
  perform Method.accept = forget (Socket.accept os)
  perform (Method.bind addr) = forget (Socket.bind os addr)
  perform Method.getaddress = forget (Socket.getaddress os)
  perform Method.getpeeraddress = forget (Socket.getpeeraddress os)
  perform (Method.connect addr) = forget (Socket.connect os addr)
  perform (Method.send bytes) = forget (Transfer.send os bytes)
  perform (Method.sendto addr bytes) = forget (Transfer.sendto os addr bytes)
  perform (Method.receive buffer) = forget (Transfer.receive os buffer)
  perform (Method.receivefrom flags) = forget (Transfer.receivefrom os flags)
  perform (Method.canread timeout) = forget (Socket.canread os timeout)
  perform (Method.canwrite timeout) = forget (Socket.canwrite os timeout)
  perform (Method.getopt level optname) = forget (Socket.getopt os level optname)
  perform (Method.setopt level optname v) = forget (Socket.setopt os level optname v)
  perform (Method.setopt_bytes level optname v) = forget (Socket.setopt_bytes os level optname v)
  perform (Method.shutdown how) = forget (Socket.shutdown os how)
  perform Method.close = forget (Socket.close os)
  perform (Method.graceful_shutdown fuel) = forget (Close.graceful_shutdown os fuel)
  perform Method.is_timeout = forget (Socket.is_timeout os)
  perform (Method.set_timeout timeout) = Socket.set_timeout os timeout

  -- A session: the socket and the system after the methods, whether they returned or threw.
  unfoldable pub session : List Method → Socket → W → Socket × W
  session [] s w = (s, w)
  session (m ∷ ms) s w = let r = perform m s w in session ms r.1 r.2
