-- ===== src/Dispatcher/Printed.antt =====
-- `print_all` of `queue_dispatcher` and of `nqueue` in src/nqueue.h: the text that goes to `std::cout`.
use virtual_gw.Common.Decimal.{decimal}
use virtual_gw.Common.{ℕ, ◌+◌, List, [], ◌∷◌, ◌++◌}
use virtual_gw.Common.Text.{Text, codes}
use virtual_gw.Qdisc.{Qdisc}
use virtual_gw.Qdisc
use virtual_gw.Nfilter
use virtual_gw.Nqueue.{Nqueue}
use virtual_gw.Dispatcher.Table.{NqList}

-- A line of a discipline, `i` its index.
abbrev qdisc_line : ℕ → Qdisc → Text
qdisc_line i d =
    codes "\tqdisc [" ++ (decimal i ++ (codes "]:  " ++ (Qdisc.Describe.describe d ++ codes "\n")))

-- The loop of `nqueue::print_all` from the index `i` on.
unfoldable pub qdisc_lines : ℕ → List Qdisc → Text
qdisc_lines i [] = []
qdisc_lines i (d ∷ ds) = qdisc_line i d ++ qdisc_lines (i + 1) ds

-- `nqueue::print_all`
unfoldable pub print_queue : Nqueue → Text
print_queue n =
    codes "\t" ++ (Nfilter.Describe.describe n.filter ++ (codes "\n" ++ qdisc_lines 0 n.qdisc_vec))

-- `print_all`
unfoldable pub print_all : NqList → Text
print_all [] = []
print_all ((k, n) ∷ m) =
    codes "Queue[" ++ (k ++ (codes "]:\n" ++ (print_queue n ++ (codes "\n" ++ print_all m))))
