-- ===== src/Nfilter/Describe.antt =====
-- `describe` of the filters in src/nfilter.h. The texts are shorter than the buffer of `print` in
-- src/print.h.
use virtual_gw.Common.Decimal.{decimal, leading_number-decimal}
use virtual_gw.Common.{
  ℕ, ◌/◌, ◌%◌, ◌^◌, ◌<◌, ◌≡◌, refl, sym, ap, ◌∙◌, ◌↔◌, false, none, some, [], ◌∷◌, ◌++◌, arith,
  drop,
}
use virtual_gw.Common.Int.{pos}
use virtual_gw.Common.Words.{htons}
use virtual_gw.Common.Text.{Text, codes, leading_number, atoi}
use virtual_gw.Common.Result.{ok}
use virtual_gw.Hl.Params.{Regexp, Groups, read_int_hit, read_int_miss}
use virtual_gw.Nfilter.{Nfilter}
use virtual_gw.Nfilter.Ip.{IpFilter}
use virtual_gw.Nfilter.Port.{PortFilter, new_port_filter}
use virtual_gw.Nfilter.Printed.{c_str}

-- `ip_filter::describe`
abbrev pub ip_describe : IpFilter → Text
ip_describe f = f.id ++ (codes " " ++ (c_str f.ip ++ (codes "/" ++ c_str f.mask)))

-- `"%u:%u"`
abbrev ports : ℕ → ℕ → Text
ports lo hi = decimal lo ++ (codes ":" ++ decimal hi)

-- `port_filter::describe`
abbrev pub port_describe : PortFilter → Text
port_describe f = f.id ++ (codes " " ++ ports f.port_lo f.port_hi)

-- `nfilter::describe`
unfoldable pub describe : Nfilter → Text
describe f =
    codes "Filter: "
    ++ (ip_describe f.sip
        ++ (codes " "
            ++ (port_describe f.sport
                ++ (codes " " ++ (ip_describe f.dip ++ (codes " " ++ port_describe f.dport))))))

append-cancel : (xs : Text) {ys zs : Text} → xs ++ ys ≡ xs ++ zs → ys ≡ zs
append-cancel [] e = e
append-cancel (x ∷ xs) e = append-cancel xs (ap (drop 1) e)

ports_first : (lo hi : ℕ) → leading_number 0 (ports lo hi) ≡ lo
ports_first lo hi = leading_number-decimal lo (codes ":" ++ decimal hi) refl

-- A filter from an option with one port, `sport 80`, is described by the port in network order: the
-- description shows the option's port exactly if the port's two bytes are the same.
pub port_describe-single :
    (match : Regexp) (id opt : Text) (rg : Groups) (n : ℕ)
    → match (id ++ codes " +([0-9]+)") opt ≡ some rg
    → atoi (rg 1) ≡ pos n
    → n < 2 ^ 16
    → match (id ++ codes " +[0-9]+-([0-9]+)") opt ≡ none
    → (f : PortFilter) × (new_port_filter match id opt ≡ ok f)
      × ((port_describe f ≡ id ++ (codes " " ++ ports n n)) ↔ (n / 256 ≡ n % 256))
unfolding new_port_filter
port_describe-single match id opt rg n e a h e' = (
  record { id = id; port_lo = htons n; port_hi = htons n },
  ground (
    arith,
    read_int_hit match opt (id ++ codes " +([0-9]+)") (pos 0) false rg e,
    read_int_miss match opt (id ++ codes " +[0-9]+-([0-9]+)") (atoi (rg 1)) e',
  ),
  (
    λ same.
        let shown =
          sym (ports_first (htons n) (htons n))
          ∙ ap (leading_number 0) (append-cancel (codes " ") (append-cancel id same))
          ∙ ports_first n n in
        omega arith,
    λ same. ap (λ k. id ++ (codes " " ++ ports k k)) (omega arith),
  ),
)
