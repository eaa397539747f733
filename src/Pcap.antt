-- ===== src/Pcap.antt =====
-- src/pcap_wrapper.h: the list of the devices, a device and its packets. The driver is a parameter.
use virtual_gw.Common.Decimal.{dotted}
use virtual_gw.Common.{ℕ, not, Option, none, some, List, [], ◌∷◌, ◌==◌, if◌then◌else◌, get_elem?}
use virtual_gw.Common.Int.{ℤ, pos, eqb_ℤ}
use virtual_gw.Common.Text.{Text, codes}
use virtual_gw.Common.Result.{Result, ok, thrown, std_exception}
use virtual_gw.Hl.Params.{Regexp}

-- `sockaddr`: the family, and the four bytes of `sa_data` from 2 on.
pub record SockAddr : Type 0 where
  pub sa_family : ℕ
  pub byte0 : ℕ
  pub byte1 : ℕ
  pub byte2 : ℕ
  pub byte3 : ℕ

-- `pcap_if_t`
pub record PcapIf : Type 0 where
  pub name : Text
  pub description : Text
  pub addresses : List SockAddr

pub record DevInfo : Type 0 where
  pub name : Text
  pub description : Text
  pub ip_address : Text

-- The driver, over an unknown state `W`. `findalldevs` gives nothing where it fails, `open` where
-- the handle is null; `next_ex` gives its result and the bytes of a packet.
pub record Driver (W : Type 0) : Type 0 where
  pub findalldevs : W → Option (List PcapIf) × W
  pub freealldevs : W → W
  pub open_device : W → Text → Option ℕ × W
  pub close_device : W → ℕ → W
  pub lib_version : Text
  pub datalink : W → ℕ → ℤ
  pub sendpacket : W → ℕ → List ℕ → ℤ × W
  pub next_ex : W → ℕ → (ℤ × List ℕ) × W

-- The inner loop over the addresses: the first IP address.
unfoldable pub first_address : List SockAddr → Option Text
first_address [] = none
first_address (a ∷ rest) =
    let later = first_address rest in
    if a.sa_family == 2 then some (dotted a.byte0 a.byte1 a.byte2 a.byte3) else later

-- The loop over the interfaces, each with an IP address.
unfoldable pub devices_of : List PcapIf → List DevInfo
devices_of [] = []
devices_of (d ∷ ds) =
    let rest = devices_of ds in
    elim (first_address d.addresses) [
      | some ip ↦ record { name = d.name; description = d.description; ip_address = ip } ∷ rest
      | none ↦ rest
    ]

-- `operator[]`; the index is unsigned.
unfoldable pub device_at : List DevInfo → ℕ → Result DevInfo
device_at devices index = elim (get_elem? devices index) [
  | some d ↦ ok d
  | none ↦ thrown std_exception
]

-- `DLT_EN10MB`
abbrev pub dlt_en10mb : ℤ
dlt_en10mb = pos 1

module _ {W : Type 0} (driver : Driver W) (match : Regexp) where
  -- The constructor of `pcap_device_list`.
  unfoldable pub new_device_list : W → Result (List DevInfo) × W
  new_device_list w =
      let r = driver.findalldevs w in
      elim r.0 [
        | some alldevs ↦ (ok (devices_of alldevs), r.1)
        | none ↦ (thrown std_exception, r.1)
      ]

  -- The checks of `init` on an open handle; another version than 4 is only warned of.
  unfoldable pub check_device : ℕ → W → Result ℕ
  check_device adhandle w = elim (match (codes "WinPcap version ([0-9]+)") driver.lib_version) [
    | none ↦ thrown std_exception
    | some rg ↦
        (if not (eqb_ℤ (driver.datalink w adhandle) dlt_en10mb)
          then thrown std_exception
          else ok adhandle)
  ]

  -- The constructor of `pcap_device`; where a check throws, the handle stays open.
  unfoldable pub new_device : Text → W → Result ℕ × W
  new_device device_name w =
      let r = driver.open_device w device_name in
      elim r.0 [
        | none ↦ (thrown std_exception, r.1)
        | some adhandle ↦ (check_device adhandle r.1, r.1)
      ]

  -- `send`; an error is only printed.
  unfoldable pub send : ℕ → List ℕ → W → W
  send adhandle buffer w = (driver.sendpacket w adhandle buffer).1

  unfoldable pub get_packet : ℕ → W → (ℤ × List ℕ) × W
  get_packet adhandle w = driver.next_ex w adhandle
