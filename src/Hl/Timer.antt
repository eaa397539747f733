-- ===== src/Hl/Timer.antt =====
-- `Timer` of src/timer2.h: the performance counter in milliseconds, as an `int`.
-- `1000 * Count.QuadPart` is computed in 64 bits; a counter is not negative.
use virtual_gw.Common.{ℕ, ◌*◌, ◌/◌, ◌^◌, ◌<◌, ◌≡◌, arith}
use virtual_gw.Common.Int.{ℤ, pos, wrap, wrap_id}

unfoldable pub get_time : ℕ → ℕ → ℤ
get_time frequency count = wrap (pos (1000 * count / frequency))

-- The time counts the milliseconds until it comes round to the least `int`, after 2 ^ 31 of them.
get_time_exact :
    (frequency count : ℕ)
    → 1000 * count / frequency < 2 ^ 31
    → get_time frequency count ≡ pos (1000 * count / frequency)
unfolding get_time
get_time_exact frequency count h = wrap_id (pos (1000 * count / frequency)) (h, omega arith)
