-- ===== src/Protocols/Tcp.antt =====
-- src/protocols/tcp.h: the ports of the TCP header at an offset `off` from the start of the frame.
use virtual_gw.Common.{ℕ, ◌+◌, Option, List}
use virtual_gw.Common.Words.{read16}

abbrev pub read_th_sport : List ℕ → ℕ → Option ℕ
read_th_sport p off = read16 p off

abbrev pub read_th_dport : List ℕ → ℕ → Option ℕ
read_th_dport p off = read16 p (off + 2)
