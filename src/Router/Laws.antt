-- ===== src/Router/Laws.antt =====
-- Laws of the router of src/router.h: what becomes of a packet.
use virtual_gw.Common.{
  ℕ, zero, suc, ◌+◌, ◌≤◌, ◌≡◌, refl, ap, ◌∙◌, true, false, none, some, List, [], ◌∷◌, ◌++◌, arith,
  ltb, ◌>>=◌, >>=-eq-some, length, get_elem?, take, drop, store_front, store,
}
use virtual_gw.Common.Int.{ℤ}
use virtual_gw.Common.Words.{htons, read16, read32}
use virtual_gw.Protocols.Ethernet.{mac_bytes, read_mac, read_ether_type, mac_eq_iff, MacAddress}
use virtual_gw.Protocols.Ip.{IpAddress, read_daddr}
use virtual_gw.Arp.{ArpClient, get_mac, send_request}
use virtual_gw.Arp
use virtual_gw.Dispatcher
use virtual_gw.Router.{Router, forward, resolve, dispatch}

get_elem?-append-some :
    (xs ys : List ℕ) (k v : ℕ) → get_elem? xs k ≡ some v → get_elem? (xs ++ ys) k ≡ some v
get_elem?-append-some [] ys k v e = cc
get_elem?-append-some (x ∷ xs) ys zero v e = e
get_elem?-append-some (x ∷ xs) ys (suc k) v e = get_elem?-append-some xs ys k v e

read32-append : (xs ys : List ℕ) (k v : ℕ) → read32 xs k ≡ some v → read32 (xs ++ ys) k ≡ some v
unfolding read32
read32-append xs ys k v e =
    let (a, ea, e1) = >>=-eq-some (get_elem? xs k) _ e in
    let (b, eb, e2) = >>=-eq-some (get_elem? xs (k + 1)) _ e1 in
    let (c, ec, e3) = >>=-eq-some (get_elem? xs (k + 2)) _ e2 in
    let (d, ed, e4) = >>=-eq-some (get_elem? xs (k + 3)) _ e3 in
    rw
      (
        get_elem?-append-some xs ys k a ea,
        get_elem?-append-some xs ys (k + 1) b eb,
        get_elem?-append-some xs ys (k + 2) c ec,
        get_elem?-append-some xs ys (k + 3) d ed,
      )
      e4

pub take-length : (xs ys : List ℕ) (n : ℕ) → n ≡ length xs → take n (xs ++ ys) ≡ xs
take-length [] ys zero e = refl
take-length [] ys (suc n) e = absurd (omega arith)
take-length (x ∷ xs) ys zero e = absurd (omega arith)
take-length (x ∷ xs) ys (suc n) e = ap (λ t. x ∷ t) (take-length xs ys n (omega arith))

-- A packet: its addresses and the rest, 18 bytes of which lie before the IP destination address.
abbrev pub packet : MacAddress → MacAddress → List ℕ → List ℕ
packet dest source rest = mac_bytes dest ++ (mac_bytes source ++ rest)

packet-ether_type :
    (dest source : MacAddress) (rest : List ℕ) (t : ℕ)
    → read16 rest 0 ≡ some t
    → read_ether_type (packet dest source rest) ≡ some t
unfolding read16
packet-ether_type dest source rest t e = e

packet-dest :
    (dest source : MacAddress) (rest : List ℕ) → read_mac (packet dest source rest) 0 ≡ some dest
unfolding read_mac
packet-dest dest source rest = refl

packet-daddr :
    (dest source : MacAddress) (rest ys : List ℕ) (daddr : IpAddress)
    → read32 rest 18 ≡ some daddr
    → read_daddr (packet dest source rest ++ ys) ≡ some daddr
unfolding read32
packet-daddr dest source rest ys daddr e = read32-append rest ys 18 daddr e

-- The buffer once a packet stands in it with the router's address as the source.
abbrev pub loaded : Router → MacAddress → List ℕ → Router
loaded r dest rest = record r {
  buffer = packet dest r.fake_mac rest ++ drop (length (packet dest dest rest)) r.buffer;
}

-- `dispatch` of an IPv4 packet for the router goes on with its destination address.
dispatch-resolve :
    (r : Router) (time : ℤ) (source : MacAddress) (rest : List ℕ) (daddr : IpAddress)
    → 12 + length rest ≤ length r.buffer
    → read16 rest 0 ≡ some (htons 0x0800)
    → read32 rest 18 ≡ some daddr
    → dispatch r time (packet r.fake_mac source rest)
      ≡ resolve (loaded r r.fake_mac rest) time (length (packet r.fake_mac source rest)) daddr
unfolding dispatch
dispatch-resolve r time source rest daddr h e f =
    let data_bytes = packet r.fake_mac source rest in
    let fits : ltb (length r.buffer) (length data_bytes) ≡ false = ground (arith, h) in
    let own = (mac_eq_iff r.fake_mac r.fake_mac).1 refl in
    rw
      (
        packet-ether_type r.fake_mac source rest (htons 0x0800) e,
        packet-dest r.fake_mac source rest,
        own,
        fits,
        store_front r.buffer data_bytes (omega arith),
        packet-daddr r.fake_mac r.fake_mac rest (drop (length data_bytes) r.buffer) daddr f,
      )
      refl

get_mac_known :
    (c : ArpClient) (i : IpAddress) (mac : MacAddress)
    → Arp.find i c.arp_table ≡ some mac
    → get_mac c i ≡ (c, [], some mac)
unfolding get_mac
get_mac_known c i mac e = rw (e, get_mac) refl

get_mac_unknown :
    (c : ArpClient) (i : IpAddress)
    → Arp.find i c.arp_table ≡ none
    → get_mac c i ≡ ((send_request c i).0, (send_request c i).1 ∷ [], none)
unfolding get_mac
get_mac_unknown c i e = rw (e, get_mac) refl

resolve_known :
    (r : Router) (time : ℤ) (size : ℕ) (i : IpAddress) (mac : MacAddress)
    → Arp.find i r.arp_cln.arp_table ≡ some mac
    → resolve r time size i
      ≡ forward (record r { buffer = store r.buffer 0 (mac_bytes mac) }) time size
unfolding resolve
resolve_known r time size i mac e = ground (arith, get_mac_known r.arp_cln i mac e)

resolve_unknown :
    (r : Router) (time : ℤ) (size : ℕ) (i : IpAddress)
    → Arp.find i r.arp_cln.arp_table ≡ none
    → resolve r time size i
      ≡ some (
        record r { arp_cln = (send_request r.arp_cln i).0 },
        (send_request r.arp_cln i).1 ∷ [],
        true,
      )
unfolding resolve
resolve_unknown r time size i e = ground (arith, get_mac_unknown r.arp_cln i e)

-- An IPv4 packet for the router to an address whose MAC address is known is offered to the queues,
-- with that MAC address as its destination, the router's as its source and the rest as it came; the
-- packet is done with, and no ARP request is sent.
pub dispatch_forwards :
    (r : Router) (time : ℤ) (source mac : MacAddress) (rest : List ℕ) (daddr : IpAddress)
    → 12 + length rest ≤ length r.buffer
    → read16 rest 0 ≡ some (htons 0x0800)
    → read32 rest 18 ≡ some daddr
    → Arp.find daddr r.arp_cln.arp_table ≡ some mac
    → dispatch r time (packet r.fake_mac source rest) ≡ (
        Dispatcher.push r.qm time (packet mac r.fake_mac rest) >>= λ pushed.
        some (record (loaded r mac rest) { qm = pushed.1 }, pushed.0, true))
unfolding forward
dispatch_forwards r time source mac rest daddr h e f k =
    dispatch-resolve r time source rest daddr h e f
    ∙ resolve_known (loaded r r.fake_mac rest) time (length (packet r.fake_mac source rest)) daddr
        mac k
    ∙ rw
        (take-length (packet mac r.fake_mac rest) (drop (length (packet mac mac rest)) r.buffer)
          (length (packet mac mac rest)) refl)
        refl

-- A packet for the router to an address whose MAC address is not known is lost: an ARP request goes
-- out for it, no queue is changed, and the packet counts as done with.
dispatch_asks :
    (r : Router) (time : ℤ) (source : MacAddress) (rest : List ℕ) (daddr : IpAddress)
    → 12 + length rest ≤ length r.buffer
    → read16 rest 0 ≡ some (htons 0x0800)
    → read32 rest 18 ≡ some daddr
    → Arp.find daddr r.arp_cln.arp_table ≡ none
    → (r' : Router) × (dispatch r time (packet r.fake_mac source rest)
        ≡ some (r', (send_request r.arp_cln daddr).1 ∷ [], true))
      × (r'.qm ≡ r.qm)
dispatch_asks r time source rest daddr h e f k = (
  record (loaded r r.fake_mac rest) { arp_cln = (send_request r.arp_cln daddr).0 },
  dispatch-resolve r time source rest daddr h e f
      ∙ resolve_unknown (loaded r r.fake_mac rest) time (length (packet r.fake_mac source rest))
          daddr k,
  refl,
)
