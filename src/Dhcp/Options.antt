-- ===== src/Dhcp/Options.antt =====
-- The options of a DHCP reply, as `dispatch` of src/dhcp_client.h reads them.
pub mod Laws
use virtual_gw.Common.{ℕ, zero, suc, ◌+◌, Option, none, some, List, ltb, ◌==◌, if◌then◌else◌, ◌>>=◌}
use virtual_gw.Common.Words.{read8, read32}
use virtual_gw.Protocols.Ip.{IpAddress}

-- The local variables of `dispatch` that the loop over the options sets.
pub record Locals : Type 0 where
  pub server : IpAddress
  pub mask : IpAddress
  pub message_type : ℕ

abbrev pub no_locals : Locals
no_locals = record { server = 0; mask = 0; message_type = 0 }

-- The `switch` of the loop at `options[i]`: the end option sets `i`.
unfoldable pub option_step : List ℕ → ℕ → Locals → Option (ℕ × Locals)
option_step options i l = do
  code ← read8 options i
  if code == 0xFF
      then some (9999, l)
      else if code == 53
      then (do t ← read8 options (i + 2); some (i, record l { message_type = t }))
      else if code == 54
      then (do s ← read32 options (i + 2); some (i, record l { server = s }))
      else if code == 1
      then (do m ← read32 options (i + 2); some (i, record l { mask = m }))
      else some (i, l)

-- `for (int i=0;i<300;)`, on fuel; `none` is a read past the end of the memory, or fuel that ran out.
unfoldable pub parse_options : ℕ → List ℕ → ℕ → Locals → Option Locals
parse_options zero options i l = none
parse_options (suc fuel) options i l =
    if ltb i 300
    then (do
      r ← option_step options i l
      size ← read8 options (r.0 + 1)
      parse_options fuel options (r.0 + size + 2) r.1)
    else some l
