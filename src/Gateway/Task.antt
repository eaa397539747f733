-- ===== src/Gateway/Task.antt =====
-- `main` in src/gate_way.cpp: what the command line asks for.
use virtual_gw.Common.{false, List, ◌==◌, if◌then◌else◌, length}
use virtual_gw.Common.Int.{ℤ, pos, bits32}
use virtual_gw.Common.Text.{Text, codes}
use virtual_gw.Common.Result.{Result, ok, thrown, std_exception, ◌>>=◌}
use virtual_gw.Hl.Params.{Regexp, check, read_text, read_int}
use virtual_gw.Pcap.{DevInfo, device_at}

-- What the program is to do: `serve` has the server's name and the device.
pub data Task : Type 0 where
  show_usage discovery server_command : Task
  list_devices : List DevInfo → Task
  show_version : Task
  serve : Text → DevInfo → Task

-- The part of `main` from the device list on: `opens` tells whether the device of a name can be
-- opened.
unfoldable pub on_devices :
    Regexp → Text → Text → ℤ → (Text → Result (Unit {0})) → List DevInfo → Result Task
on_devices match command_line server_name dev_num opens dl =
    if length dl == 0 then thrown std_exception else (do
      listed ← read_int match command_line (codes "-D") dev_num false
      if listed.0 then ok (list_devices dl) else (do
        device ← device_at dl (bits32 dev_num)
        opened ← opens device.name
        version ← check match command_line (codes "-v") false
        ok (if version then show_version else serve server_name device)))

-- `main` up to the task; `devices` is what the constructor of the device list gives.
unfoldable pub task_of :
    Regexp → Text → Result (List DevInfo) → (Text → Result (Unit {0})) → Result Task
task_of match command_line devices opens = do
  usage ← check match command_line (codes "[-/]h") false
  if usage then ok show_usage else (do
    finds ← check match command_line (codes "-discovery") false
    if finds then ok discovery else (do
      commands ← check match command_line (codes "-scmd") false
      if commands then ok server_command else (do
        name ← read_text match command_line (codes "-name=([-A-Za-z0-9_]+)") (codes "unknown") false
        number ← read_int match command_line (codes "-i=([0-9]+)") (pos 0) false
        dl ← devices
        on_devices match command_line name.1 number.1 opens dl)))
