-- ===== src/Nfilter/Port.antt =====
-- `port_filter` of src/nfilter.h. The bounds are kept in network order, as the ports of a packet are.
use virtual_gw.Common.{ℕ, Bool, false, ◌&&◌, [], ◌++◌, leb, if◌then◌else◌}
use virtual_gw.Common.Int.{pos, bits32}
use virtual_gw.Common.Words.{htons}
use virtual_gw.Common.Text.{Text, codes}
use virtual_gw.Common.Result.{Result, ok, bind}
use virtual_gw.Hl.Params.{Regexp, read_int}

pub record PortFilter : Type 0 where
  pub id : Text
  pub port_lo : ℕ
  pub port_hi : ℕ

abbrev pub default_port_filter : PortFilter
default_port_filter = record { id = []; port_lo = 0; port_hi = 0xFFFF }

-- The constructor with an option text. `htons` takes the low 16 bits of the `int`.
unfoldable pub new_port_filter : Regexp → Text → Text → Result PortFilter
new_port_filter match id opt =
    bind (read_int match opt (id ++ codes " +([0-9]+)") (pos 0) false) λ lo.
      bind
        (if lo.0
          then read_int match opt (id ++ codes " +[0-9]+-([0-9]+)") lo.1 false
          else ok (false, pos 0xFFFF))
        λ hi. ok (record { id = id; port_lo = htons (bits32 lo.1); port_hi = htons (bits32 hi.1) })

-- `test`
unfoldable pub port_test : PortFilter → ℕ → Bool
port_test f p = leb f.port_lo p && leb p f.port_hi
