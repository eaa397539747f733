-- ===== src/Net/Address.antt =====
-- src/net/address.h, src/net/address.cpp: a host and a port, both in the machine's order.
use virtual_gw.Common.Decimal.{dotted}
use virtual_gw.Common.{ℕ, ◌-◌, ◌/◌, ◌%◌, ◌^◌, not, none, some, ◌==◌, if◌then◌else◌}
use virtual_gw.Common.Words.{htons, htonl}
use virtual_gw.Common.Text.{Text}
use virtual_gw.Net.Winsock.{af_inet, SockaddrIn, Winsock}
use virtual_gw.Net.Error.{net_exception}
use virtual_gw.Net.Run.{net_error, returned, threw, undefined, Outcome}

pub record Address : Type 0 where
  pub host : ℕ
  pub port : ℕ

-- The address that a `sockaddr_in` of the family `AF_INET` holds, and the one that holds it.
unfoldable pub sockaddr : Address → SockaddrIn
sockaddr addr = record {
  sin_family = af_inet;
  sin_port = htons addr.port;
  s_addr = htonl addr.host;
}

unfoldable pub address_in : SockaddrIn → Address
address_in a = record { host = htonl a.s_addr; port = htons a.sin_port }

-- `INADDR_NONE`
abbrev pub inaddr_none : ℕ
inaddr_none = 2 ^ 32 - 1

-- The constructor from a text.
unfoldable pub address_of_text : {W : Type 0} → Winsock W → Text → ℕ → W → Outcome Address
address_of_text os host port w =
    let res = os.inet_addr host in
    if not (res == inaddr_none)
    then returned (record { host = htonl res; port = port })
    else elim (net_exception (os.format_message w) (os.wsa_get_last_error w)) [
      | some message ↦ threw (net_error message)
      | none ↦ undefined
    ]

-- `IPAsString`: the bytes of the host in memory, the lowest first.
unfoldable pub ip_as_string : Address → Text
ip_as_string addr =
    let h = addr.host in dotted (h % 256) (h / 256 % 256) (h / 65536 % 256) (h / 16777216 % 256)
