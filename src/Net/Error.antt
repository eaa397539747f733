-- ===== src/Net/Error.antt =====
-- src/net/net.h: `net_exception` and the text it makes of an error of Winsock.
use virtual_gw.Common.{
  ℕ, ◌≡◌, refl, inl, inr, false, Option, none, some, List, [], ◌∷◌, if◌then◌else◌, Option-cases,
}
use virtual_gw.Common.Int.{ℤ, pos, eqb_ℤ}
use virtual_gw.Common.Text.{Text, codes}
use Prim.Native.String.{String}

-- The messages of the `switch`, in its order, under the values of the names WSANOTINITIALISED,
-- WSAENETDOWN, WSAEFAULT, WSAEINTR, WSAEINPROGRESS, WSAEINVAL, WSAEISCONN, WSAENETRESET, WSAENOTSOCK,
-- WSAEOPNOTSUPP, WSAESHUTDOWN, WSAEWOULDBLOCK, WSAEMSGSIZE, WSAETIMEDOUT and WSAECONNRESET.
abbrev pub messages : List (ℕ × String)
messages =
    (10093, "A successful WSAStartup call must occur before using this function.")
    ∷ (10050, "The network subsystem has failed.")
    ∷ (
      10014,
      "The buf or from parameters are not part of the user address space, or the fromlen parameter is too small to accommodate the peer address.",
    )
    ∷ (10004, "The (blocking) call was canceled through WSACancelBlockingCall.")
    ∷ (
      10036,
      "A blocking Windows Sockets 1.1 call is in progress, or the service provider is still processing a callback function.",
    )
    ∷ (
      10022,
      "The socket has not been bound with bind, or an unknown flag was specified, or MSG_OOB was specified for a socket with SO_OOBINLINE enabled, or (for byte stream-style sockets only) len was zero or negative.",
    )
    ∷ (
      10056,
      "The socket is connected. This function is not permitted with a connected socket, whether the socket is connection-oriented or connectionless.",
    )
    ∷ (
      10052,
      "The connection has been broken due to the keep-alive activity detecting a failure while the operation was in progress.",
    )
    ∷ (10038, "The descriptor is not a socket.")
    ∷ (
      10045,
      "MSG_OOB was specified, but the socket is not stream-style such as type SOCK_STREAM, OOB data is not supported in the communication domain associated with this socket, or the socket is unidirectional and supports only send operations.",
    )
    ∷ (
      10058,
      "The socket has been shut down; it is not possible to recvfrom on a socket after shutdown has been invoked with how set to SD_RECEIVE or SD_BOTH.",
    )
    ∷ (10035, "The socket is marked as nonblocking and the recvfrom operation would block.")
    ∷ (10040, "The message was too large to fit into the specified buffer and was truncated.")
    ∷ (
      10060,
      "The connection has been dropped, because of a network failure or because the system on the other end went down without notice.",
    )
    ∷ (
      10054,
      "The virtual circuit was reset by the remote side executing a hard or abortive close. The application should close the socket as it is no longer usable. On a UPD-datagram socket this error would indicate that a previous send operation resulted in an ICMP \"Port Unreachable\" message.",
    )
    ∷ []

-- The `switch`; `none` is its null pointer.
unfoldable pub find_message : List (ℕ × String) → ℤ → Option Text
find_message [] e = none
find_message ((value, message) ∷ ms) e =
    let rest = find_message ms e in if eqb_ℤ e (pos value) then some (codes message) else rest

-- What the constructor makes of the pointer of the `switch`, where `system` is what `FormatMessage`
-- finds.
unfoldable pub or_system : (ℤ → Option Text) → ℤ → Option Text → Option Text
or_system system last_err (some message) = some message
or_system system last_err none =
    if eqb_ℤ last_err (pos 0)
    then none
    else elim (system last_err) [ some message ↦ some message | none ↦ some [] ]

-- The message of `net_exception(last_err)`. `none` is the undefined behaviour of `message = NULL`,
-- which error 0 reaches.
unfoldable pub net_exception : (ℤ → Option Text) → ℤ → Option Text
net_exception system last_err = or_system system last_err (find_message messages last_err)

or_system_defined :
    (system : ℤ → Option Text) (e : ℤ) (found : Option Text)
    → eqb_ℤ e (pos 0) ≡ false
    → (message : Text) × (or_system system e found ≡ some message)
unfolding or_system
or_system_defined system e (some m) h = (m, refl)
or_system_defined system e none h = elim (Option-cases (system e)) [
  | inr (m, l) ↦ (m, rw (h, l))
  | inl l ↦ ([], rw (h, l))
]

-- Every error but 0 gives an exception with a message.
pub net_exception_defined :
    (system : ℤ → Option Text) (e : ℤ)
    → eqb_ℤ e (pos 0) ≡ false
    → (message : Text) × (net_exception system e ≡ some message)
unfolding net_exception
net_exception_defined system e h = or_system_defined system e (find_message messages e) h
