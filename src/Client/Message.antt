-- ===== src/Client/Message.antt =====
-- The messages of src/client.h: `vgw_header<discovery>`, 44 bytes, and `vgw_header<server_command>`,
-- 300 bytes, both with 3 bytes behind what is written; and the reading of a `vgw_header<reply>`.
use virtual_gw.Common.{
  ℕ, ◌-◌, not, Option, some, List, [], ◌∷◌, ◌++◌, ◌==◌, if◌then◌else◌, ◌>>=◌, length, take, drop,
  replicate,
}
use virtual_gw.Common.Int.{ℤ, pos, signed32}
use virtual_gw.Common.Words.{bytes32, read32}
use virtual_gw.Common.Text.{Text}
use virtual_gw.Vgw.{
  vgw_protocol_id, type_discovery, type_server_command, type_reply, name_field, read_protocol_id,
  read_type, c_string,
}

abbrev pub max_cmd_len : ℕ
max_cmd_len = 256

-- The header with a type, and what stands behind it. `left` is what the memory held.
unfoldable pub header_bytes : List ℕ → Text → ℕ → ℕ → List ℕ → List ℕ
header_bytes left name request_id type rest =
    bytes32 vgw_protocol_id ++ (name_field left name ++ (bytes32 request_id ++ (type ∷ rest)))

unfoldable pub discovery_bytes : List ℕ → Text → ℕ → List ℕ
discovery_bytes left name request_id =
    header_bytes left name request_id type_discovery (take 3 (left ++ replicate 3 0))

-- The member `command`.
unfoldable pub command_field : List ℕ → Text → List ℕ
command_field left cmd =
    let copied = take max_cmd_len (cmd ++ 0 ∷ []) in
    copied ++ take (max_cmd_len - length copied) left

unfoldable pub command_bytes : List ℕ → Text → ℕ → Text → List ℕ
command_bytes left name request_id cmd =
    header_bytes left name request_id type_server_command
      (command_field left cmd ++ take 3 (left ++ replicate 3 0))

-- `dispatch`: the result in a reply, 0 in any other message. The server's name is read to be
-- printed. `none` is a read past the end.
unfoldable pub reply_result : List ℕ → Option ℤ
reply_result message = do
  protocol_id ← read_protocol_id message
  if not (protocol_id == vgw_protocol_id) then some (pos 0) else (do
    type ← read_type message
    if not (type == type_reply) then some (pos 0) else (do
      server_name ← c_string (drop 4 message)
      result ← read32 message 44
      some (signed32 result)))
