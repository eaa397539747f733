-- ===== src/Net/Laws.antt =====
-- What single methods of `socket` and `address` do.
use virtual_gw.Common.Decimal.{dotted}
use virtual_gw.Common.{
  ℕ, ◌+◌, ◌-◌, ◌*◌, ◌/◌, ◌%◌, ◌^◌, ◌≤◌, ◌<◌, ◌≡◌, refl, ◌∙◌, ◌↔◌, inl, inr, true, false, arith, leb,
  ◌==◌, Bool-cases,
}
use virtual_gw.Common.Int.{pos, eqb_ℤ}
use virtual_gw.Common.Words.{sub_u32, htonl, htons_inv, bytes32_inv}
use virtual_gw.Net.Winsock.{socket_error, SockaddrIn, Winsock}
use virtual_gw.Net.Run.{returned, go_on, give, call, look, Socket, ◌>>=◌}
use virtual_gw.Net.Address.{sockaddr, address_in, address_of_text, ip_as_string, Address}
use virtual_gw.Net.Socket.{bind, getaddress, is_timeout}

pub htonl_inv : (w : ℕ) → w < 2 ^ 32 → htonl (htonl w) ≡ w
htonl_inv w h = omega arith

address_in-sockaddr :
    (a : Address) → a.host < 2 ^ 32 → a.port < 2 ^ 16 → address_in (sockaddr a) ≡ a
unfolding address_in sockaddr
address_in-sockaddr a h k = rw (htonl_inv a.host h, htons_inv a.port k) refl

-- Where the name of a socket that was bound to an address without an error is that address: `bind`
-- returns 0, and `getaddress` then returns the address.
pub getaddress-bind :
    {W : Type 0} (os : Winsock W) (s : Socket) (w : W) (a : Address)
    → ((x : SockaddrIn)
        → eqb_ℤ (os.bind w s.s x).0 socket_error ≡ false
        → (os.getsockname (os.bind w s.s x).1 s.s).0 ≡ (pos 0, x))
    → a.host < 2 ^ 32
    → a.port < 2 ^ 16
    → eqb_ℤ (os.bind w s.s (sockaddr a)).0 socket_error ≡ false
    → let r = (bind os a >>= λ result. getaddress os) s w in r.0 ≡ returned a
unfolding bind getaddress call give ◌>>=◌ go_on
getaddress-bind os s w a name h k e = rw (e, name (sockaddr a) e, address_in-sockaddr a h k) refl

-- `inet_addr` reads four bytes with dots between them into network order.
unfoldable pub ParsesDotted : {W : Type 0} → Winsock W → Type 0
ParsesDotted os =
    (a b c d : ℕ)
    → a < 256
    → b < 256
    → c < 256
    → d < 256
    → os.inet_addr (dotted a b c d) ≡ a + b * 256 + c * 65536 + d * 16777216

-- Where `inet_addr` reads four bytes with dots between them: the address that the constructor makes
-- of the text of `IPAsString` has the bytes of the host in the other order, for every host but
-- 255.255.255.255.
pub address_of_text-ip_as_string :
    {W : Type 0} (os : Winsock W) (a : Address) (port : ℕ) (w : W)
    → ParsesDotted os
    → a.host < 2 ^ 32 - 1
    → address_of_text os (ip_as_string a) port w
      ≡ returned (record { host = htonl a.host; port = port })
unfolding address_of_text ip_as_string ParsesDotted
address_of_text-ip_as_string os a port w h l =
    let e =
      h (a.host % 256) (a.host / 256 % 256) (a.host / 65536 % 256) (a.host / 16777216 % 256)
        (omega arith) (omega arith) (omega arith) (omega arith)
      ∙ bytes32_inv a.host (omega arith) in
    rw e (ground arith)

elapsed_iff :
    (timeout now last shown kept : ℕ)
    → shown ≡ now % 2 ^ 32
    → kept ≡ last % 2 ^ 32
    → last ≤ now
    → now < last + 2 ^ 32
    → (returned (leb timeout (sub_u32 shown kept)) ≡ returned true) ↔ (timeout ≤ now - last)
elapsed_iff timeout now last shown kept e f h k = ground arith

-- A socket with a timeout t whose last transfer was at the time `last`, on a clock that shows the
-- time modulo 2 ^ 32: less than 2 ^ 32 milliseconds after it, `is_timeout` is true if and only if
-- t milliseconds have gone by, whether or not the clock has come round in between.
pub is_timeout_iff :
    {W : Type 0} (os : Winsock W) (s : Socket) (w : W) (now last : ℕ)
    → (os.get_tick_count w).0 ≡ now % 2 ^ 32
    → s.last_transfer ≡ last % 2 ^ 32
    → last ≤ now
    → now < last + 2 ^ 32
    → 0 < s.timeout
    → ((is_timeout os s w).0 ≡ returned true) ↔ (s.timeout ≤ now - last)
unfolding is_timeout look call give ◌>>=◌ go_on
is_timeout_iff os s w now last e f h k t = elim (Bool-cases (s.timeout == 0)) [
  | inl i ↦ absurd (ground arith)
  | inr i ↦ rw i (elapsed_iff s.timeout now last (os.get_tick_count w).0 s.last_transfer e f h k)
]
