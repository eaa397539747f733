-- ===== src/Packets.antt =====
-- src/npacket.h and the class `packets_raw_queue` of src/nqueue.h: the queue of the packets that
-- wait to be sent, bounded by the bytes of their data. Printing is left out.
pub mod Laws
pub mod Mass
mod Tests
use virtual_gw.Common.{
  ℕ, Bool, true, false, Option, none, some, List, [], ◌∷◌, ◌++◌, ltb, if◌then◌else◌, ◌>>=◌, length,
}
use virtual_gw.Common.Int.{ℤ, pos, eqb_ℤ, add_int, mul_int, div_int}
use virtual_gw.Common.Words.{add_u32, sub_u32}
use virtual_gw.Statistics.{Statistics, new_statistics, packet_in, packet_lost, packet_out, add}

-- `npacket`: a number of its own, the time it came in, its bytes.
pub record Npacket : Type 0 where
  pub uid : ℤ
  pub in_time : ℤ
  pub bytes : List ℕ

-- The constructor counts `uid_base` up, which goes in and comes back.
unfoldable pub new_npacket : ℤ → ℤ → List ℕ → ℤ × Npacket
new_npacket uid_base time bytes =
    let next = add_int uid_base (pos 1) in
    (next, record { uid = next; in_time = time; bytes = bytes })

-- `packets_raw_queue<npacket>`, oldest packet first.
pub record PacketsRawQueue : Type 0 where
  pub packets : List Npacket
  pub total_data_size : ℕ
  pub total_limit : ℕ
  pub stat : Statistics

unfoldable pub new_queue : ℕ → PacketsRawQueue
new_queue queue_size = record {
  packets = [];
  total_data_size = 0;
  total_limit = queue_size;
  stat = new_statistics;
}

unfoldable pub set_queue_size : PacketsRawQueue → ℕ → PacketsRawQueue
set_queue_size q new_size = record q { total_limit = new_size }

-- What `push` appends, and its early return.
unfoldable pub push : PacketsRawQueue → Npacket → PacketsRawQueue
push q p =
    let size = length p.bytes in
    let q = record q { stat = packet_in q.stat p.in_time size } in
    if ltb q.total_limit q.total_data_size
    then record q { stat = packet_lost q.stat p.in_time }
    else record q {
      packets = q.packets ++ p ∷ [];
      total_data_size = add_u32 q.total_data_size size;
    }

-- `front`; `none` is the undefined behaviour of `front` and `pop` on an empty `std::queue`.
unfoldable pub front : PacketsRawQueue → Option Npacket
front q = elim q.packets [ [] ↦ none | p ∷ rest ↦ some p ]

unfoldable pub empty : PacketsRawQueue → Bool
empty q = elim q.packets [ [] ↦ true | p ∷ rest ↦ false ]

unfoldable pub pop : PacketsRawQueue → ℤ → Option (Npacket × PacketsRawQueue)
pop q out_time = elim q.packets [
  | [] ↦ none
  | p ∷ rest ↦ some (
    p,
    record q {
      packets = rest;
      total_data_size = sub_u32 q.total_data_size (length p.bytes);
      stat = packet_out q.stat out_time p.in_time (length p.bytes);
    },
  )
]

unfoldable pub drop_front : PacketsRawQueue → ℤ → Option PacketsRawQueue
unfolding front pop
drop_front q out_time = do
  p ← front q
  popped ← pop (record q { stat = packet_lost q.stat p.in_time }) out_time
  some popped.1

-- What `show_stat` prints.
pub record Report : Type 0 where
  pub queue_size : ℕ
  pub queue_pkt : ℕ
  pub in_pkt : ℤ
  pub out_pkt : ℤ
  pub in_traf : ℤ
  pub out_traf : ℤ
  pub lost_pkt : ℤ
  pub delay : ℤ

unfoldable pub show_stat : PacketsRawQueue → ℤ → Report × PacketsRawQueue
show_stat q time =
    let s = q.stat in
    (
      record {
        queue_size = q.total_data_size;
        queue_pkt = length q.packets;
        in_pkt = mul_int s.in_packets.value (pos 2);
        out_pkt = mul_int s.out_packets.value (pos 2);
        in_traf = mul_int s.in_counter.value (pos 2);
        out_traf = mul_int s.out_counter.value (pos 2);
        lost_pkt = mul_int s.packets_lost.value (pos 2);
        delay =
            if eqb_ℤ s.in_packets.value (pos 0)
            then pos 0
            else div_int s.packets_delay.value s.in_packets.value;
      },
      record q {
        stat = record s {
          in_packets = add s.in_packets time (pos 0);
          out_packets = add s.out_packets time (pos 0);
          in_counter = add s.in_counter time (pos 0);
          out_counter = add s.out_counter time (pos 0);
          packets_lost = add s.packets_lost time (pos 0);
          packets_delay = add s.packets_delay time (pos 0);
        };
      },
    )
