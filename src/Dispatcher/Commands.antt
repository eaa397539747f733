-- ===== src/Dispatcher/Commands.antt =====
-- The commands of `queue_dispatcher` in src/nqueue.h.
use virtual_gw.Common.{ℕ, Option, none, some}
use virtual_gw.Common.Int.{ℤ}
use virtual_gw.Common.Text.{Text}
use virtual_gw.Dispatcher.Table.{NqList, entry, assign, erase}
use virtual_gw.Common.Result.{Exception, Result, ok, thrown, bind}
use virtual_gw.Hl.Params.{Regexp}
use virtual_gw.Nqueue.{Nqueue}
use virtual_gw.Nqueue
use virtual_gw.Nfilter.{set_options}

-- What a command leaves: the queues, and the exception it throws. `nq_list[key]` makes a queue of a
-- new name before the operation on it can throw, and the queue stays.
abbrev pub Outcome : Type 0
Outcome = Option Exception × NqList

unfoldable pub with_queue : NqList → Text → (Nqueue → Result Nqueue) → Outcome
with_queue m key op = elim (op (entry key m)) [
  | ok n ↦ (none, assign key n m)
  | thrown e ↦ (some e, assign key (entry key m) m)
]

unfoldable pub set_qsize : NqList → Text → ℕ → Outcome
set_qsize m key new_size = with_queue m key λ n. ok (Nqueue.set_qsize n new_size)

unfoldable pub clear_queue : NqList → Text → Outcome
clear_queue m key = (none, erase key m)

-- `set_options` assigns its four filters in turn; where it throws in the middle the program ends, and
-- the filter is taken as it was.
unfoldable pub set_filter : Regexp → NqList → Text → Text → Outcome
set_filter match m key filter =
    with_queue m key λ n. bind (set_options match filter) λ f. ok (record n { filter = f })

unfoldable pub set_qdisc : Regexp → ℤ → NqList → Text → Text → Text → Text → Outcome
set_qdisc match garbage m key qdisc_index qdisc_name params =
    with_queue m key λ n. Nqueue.set_qdisc match garbage n qdisc_index qdisc_name params

unfoldable pub push_back_qdisc : Regexp → ℤ → NqList → Text → Text → Text → Outcome
push_back_qdisc match garbage m key qdisc_name params =
    with_queue m key λ n. Nqueue.push_back_qdisc match garbage n qdisc_name params
