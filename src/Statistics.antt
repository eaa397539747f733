-- ===== src/Statistics.antt =====
-- src/statistics.h: counters over time frames of 500 ms, and the six counters of a packet queue.
-- Times and sizes are `int`; `n` bytes of data count as `(int)data.size()`.
pub mod Laws
mod Tests
use virtual_gw.Common.{ℕ, ◌%◌, ◌^◌, if◌then◌else◌}
use virtual_gw.Common.Int.{ℤ, pos, ltb_ℤ, eqb_ℤ, signed32, add_int, sub_int, mod_int}

-- `tr_counter`
pub record TrCounter : Type 0 where
  pub last_time : ℤ
  pub frame_time : ℤ
  pub value : ℤ
  pub tmp_value : ℤ

abbrev pub new_counter : TrCounter
new_counter = record { last_time = pos 0; frame_time = pos 500; value = pos 0; tmp_value = pos 0 }

-- `if(!last_time) last_time = time;`
abbrev pub started : TrCounter → ℤ → TrCounter
started c time = if eqb_ℤ c.last_time (pos 0) then record c { last_time = time } else c

-- What `add` does once the counter has started.
abbrev pub count : TrCounter → ℤ → ℤ → TrCounter
count c time size =
    let elapsed = sub_int time c.last_time in
    if ltb_ℤ elapsed c.frame_time
    then record c { tmp_value = add_int c.tmp_value size }
    else record c {
      last_time = sub_int time (mod_int elapsed c.frame_time);
      value = c.tmp_value;
      tmp_value = size;
    }

-- `tr_counter::add`
unfoldable pub add : TrCounter → ℤ → ℤ → TrCounter
add c time size = count (started c time) time size

-- `statistics`
pub record Statistics : Type 0 where
  pub in_counter : TrCounter
  pub out_counter : TrCounter
  pub in_packets : TrCounter
  pub out_packets : TrCounter
  pub packets_lost : TrCounter
  pub packets_delay : TrCounter

abbrev pub new_statistics : Statistics
new_statistics = record {
  in_counter = new_counter;
  out_counter = new_counter;
  in_packets = new_counter;
  out_packets = new_counter;
  packets_lost = new_counter;
  packets_delay = new_counter;
}

-- `(int)data.size() - 14`
abbrev pub payload : ℕ → ℤ
payload size = sub_int (signed32 (size % 2 ^ 32)) (pos 14)

unfoldable pub packet_lost : Statistics → ℤ → Statistics
packet_lost s time = record s { packets_lost = add s.packets_lost time (pos 1) }

unfoldable pub packet_in : Statistics → ℤ → ℕ → Statistics
packet_in s time size = record s {
  in_packets = add s.in_packets time (pos 1);
  in_counter = add s.in_counter time (payload size);
}

unfoldable pub packet_out : Statistics → ℤ → ℤ → ℕ → Statistics
packet_out s out_time in_time size = record s {
  out_packets = add s.out_packets out_time (pos 1);
  out_counter = add s.out_counter out_time (payload size);
  packets_delay = add s.packets_delay out_time (sub_int out_time in_time);
}
