-- ===== src/Gateway/CtrlBreak.antt =====
-- src/ctrl_break_handler.h: the console's events.
use virtual_gw.Common.{ℕ, Bool, true, false, not, ◌||◌, ◌==◌, if◌then◌else◌}
use virtual_gw.Common.Result.{Result, ok, thrown, std_exception}

-- `CTRL_C_EVENT`, `CTRL_BREAK_EVENT`, `CTRL_CLOSE_EVENT`, `CTRL_LOGOFF_EVENT` and
-- `CTRL_SHUTDOWN_EVENT`.

abbrev pub is_break : ℕ → Bool
is_break event = (event == 0) || ((event == 1) || ((event == 2) || ((event == 5) || (event == 6))))

-- `CtrlHandler`: its result and `ctrl_break_pressed`.
unfoldable pub ctrl_handler : ℕ → Bool → Bool × Bool
ctrl_handler event pressed = if is_break event then (true, true) else (false, pressed)

-- The constructor, where `SetConsoleCtrlHandler` tells whether it could.
unfoldable pub install : Bool → Result Bool
install could_set = if not could_set then thrown std_exception else ok false
