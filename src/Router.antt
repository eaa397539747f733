-- ===== src/Router.antt =====
-- src/router.h: packets for the gateway's MAC address are readdressed and handed to the queues. The
-- ports and flags that are only formatted for a message that is commented out are left out.
pub mod Laws
pub mod Pushes
mod Tests
use virtual_gw.Common.{
  ℕ, Bool, true, false, not, Option, none, some, List, [], ltb, ◌==◌, if◌then◌else◌, ◌>>=◌, length,
  take, store,
}
use virtual_gw.Common.Int.{ℤ}
use virtual_gw.Common.Words.{htons}
use virtual_gw.Protocols.Ethernet.{mac_eq, mac_bytes, read_mac, read_ether_type, MacAddress}
use virtual_gw.Protocols.Ip.{IpAddress, read_daddr}
use virtual_gw.Arp.{ArpClient, Frame, get_mac}
use virtual_gw.Dispatcher.{QueueDispatcher}
use virtual_gw.Dispatcher

-- The members of `router`, the ARP client that it refers to, and the static buffer of `dispatch`.
pub record Router : Type 0 where
  pub arp_cln : ArpClient
  pub fake_mac : MacAddress
  pub qm : QueueDispatcher
  pub buffer : List ℕ

-- A handler's result: the router, the frames sent, whether the packet is done with.
abbrev pub Routed : Type 0
Routed = Router × List Frame × Bool

-- `qm.push` of the first `size` bytes of the buffer, which stands in `r`.
unfoldable pub forward : Router → ℤ → ℕ → Option Routed
forward r time size = do
  pushed ← Dispatcher.push r.qm time (take size r.buffer)
  some (record r { qm = pushed.1 }, pushed.0, true)

-- From `get_mac` on: the MAC address, where it is known, is stored as the destination.
unfoldable pub resolve : Router → ℤ → ℕ → IpAddress → Option Routed
resolve r time size daddr =
    let asked = get_mac r.arp_cln daddr in
    let r' = record r { arp_cln = asked.0 } in
    elim asked.2 [
      | none ↦ some (r', asked.1, true)
      | some mac ↦ forward (record r' { buffer = store r.buffer 0 (mac_bytes mac) }) time size
    ]

-- `dispatch`, at time `time`; `data` are the packet's `size` bytes. `none` is an access out of bounds:
-- a read past the packet's end, or a packet larger than the buffer of 0xFFFF bytes.
unfoldable pub dispatch : Router → ℤ → List ℕ → Option Routed
dispatch r time data_bytes = do
  ether_type ← read_ether_type data_bytes
  if not (ether_type == htons 0x0800) then some (r, [], false) else (do
    dest ← read_mac data_bytes 0
    if not (mac_eq dest r.fake_mac)
        then some (r, [], false)
        else if ltb (length r.buffer) (length data_bytes)
        then none
        else (do
          let buffer = store (store r.buffer 0 data_bytes) 6 (mac_bytes r.fake_mac)
          daddr ← read_daddr buffer
          resolve (record r { buffer = buffer }) time (length data_bytes) daddr))
