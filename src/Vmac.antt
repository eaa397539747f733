-- ===== src/Vmac.antt =====
-- src/vmac.h: the MAC address under which the gateway works, made of that of a network adapter.
-- The calls of Windows are a parameter: the addresses of its adapters, the first and those behind it,
-- or nothing where `GetAdaptersInfo` fails.
use virtual_gw.Common.{◌≡◌, refl, Option, none, some, List, [], ◌∷◌}
use virtual_gw.Protocols.Ethernet.{MacAddress}
use Prim.Native.Nat.{bit_xor}

-- What the loop over the adapters leaves in `vmac`.
unfoldable last_of : MacAddress → List MacAddress → MacAddress
last_of m [] = m
last_of m (a ∷ as') = last_of a as'

-- `GetMACaddress`, on the address that `vmac` holds before.
unfoldable get_mac_address : Option (MacAddress × List MacAddress) → MacAddress → MacAddress
get_mac_address none vmac = vmac
get_mac_address (some (a, more)) vmac = last_of a more

-- `mac_address()`
abbrev no_address : MacAddress
no_address = record { byte1 = 0; byte2 = 0; byte3 = 0; byte4 = 0; byte5 = 0; byte6 = 0 }

-- The constructor.
unfoldable new_virtual_mac : Option (MacAddress × List MacAddress) → MacAddress
new_virtual_mac adapters =
    let vmac = get_mac_address adapters no_address in record vmac { byte2 = bit_xor vmac.byte2 52 }

-- Without an adapter, the gateway's address has one byte that is not 0.
without_adapter : new_virtual_mac none ≡ record no_address { byte2 = 52 }
unfolding new_virtual_mac get_mac_address
without_adapter = refl
