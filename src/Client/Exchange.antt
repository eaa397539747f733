-- ===== src/Client/Exchange.antt =====
-- The client of src/client.h and the server of src/virtual_gw.h understand each other.
use virtual_gw.Common.{
  ℕ, ◌+◌, ◌-◌, ◌^◌, ◌≤◌, ◌<◌, ◌≡◌, refl, ap, ◌∙◌, true, Option, none, some, List, [], ◌∷◌, ◌++◌,
  arith, ◌>>=◌, length, take, drop, replicate, length-drop,
}
use virtual_gw.Common.Int.{ℤ, pos, signed32}
use virtual_gw.Common.Words.{bytes32}
use virtual_gw.Protocols.Ip.{IpAddress}
use virtual_gw.Common.Text.{Text, text_eq_refl}
use virtual_gw.Common.Result.{Exception}
use virtual_gw.Vgw.{
  vgw_protocol_id, type_discovery, type_server_command, type_reply, reply_bytes, on_vgw, name_field,
  answer, caught, run_command, Served, exec, Dispatched, c_string, read_protocol_id,
}
use virtual_gw.Vgw.Frames.{Answer, answer-Answer}
use virtual_gw.Hl.Params.{Regexp}
use virtual_gw.Client.Message.{
  header_bytes, discovery_bytes, command_bytes, command_field, reply_result,
}
use virtual_gw.Client.Laws.{
  c_string-append, reply_result-of, read32-behind, header-protocol_id, header-name, header-type,
  header-rest, command_field-fits, append_assoc', no_zero,
}

length-three : (left : List ℕ) → length (take 3 (left ++ replicate 3 0)) ≡ 3
length-three [] = refl
length-three (a ∷ []) = refl
length-three (a ∷ b ∷ []) = refl
length-three (a ∷ b ∷ c ∷ left) = refl

-- A reply is read as the server wrote it.
reply_result-reply_bytes :
    (left : List ℕ) (name : Text) (request_id result : ℕ)
    → length name < 32
    → no_zero name ≡ true
    → 32 ≤ length left
    → result < 2 ^ 32
    → reply_result (reply_bytes left name request_id result) ≡ some (signed32 result)
unfolding reply_bytes header_bytes
reply_result-reply_bytes left name request_id result n z l h =
    let rest = take 3 (left ++ replicate 3 0) ++ bytes32 result in
    let m = reply_bytes left name request_id result in
    reply_result-of m name result (header-protocol_id left name request_id type_reply rest n z l)
      (header-name left name request_id type_reply rest n z l)
      (header-type left name request_id type_reply rest n z l)
      (read32-behind m (take 3 (left ++ replicate 3 0)) result
        (header-rest left name request_id type_reply rest n z l) (length-three left) h)

header-append :
    (left : List ℕ) (name : Text) (request_id type : ℕ) (rest more : List ℕ)
    → header_bytes left name request_id type rest ++ more
      ≡ header_bytes left name request_id type (rest ++ more)
unfolding header_bytes
header-append left name request_id type rest more =
    ap (λ r. bytes32 vgw_protocol_id ++ r)
      (append_assoc' (name_field left name) (bytes32 request_id ++ (type ∷ rest)) more)

header_long :
    (left : List ℕ) (name : Text) (request_id type : ℕ) (rest : List ℕ)
    → 4 ≤ length (header_bytes left name request_id type rest)
unfolding header_bytes
header_long left name request_id type rest = omega arith

-- What the server makes of a message that it can read, for its own name.
on_vgw-of :
    (match : Regexp) (garbage : ℤ) (left : List ℕ) (request_id : ℕ) (name : Text) (ip : IpAddress)
    (s : Served) (packet : List ℕ) (udph : ℕ) (m : List ℕ)
    → drop (udph + 8) packet ≡ m
    → read_protocol_id m ≡ some vgw_protocol_id
    → c_string (drop 4 m) ≡ some name
    → on_vgw match garbage left request_id name ip s packet udph ≡ (do
      r ← exec match garbage m s
      elim r.0 [
        | some e ↦ some (some e, r.2, [], 0)
        | none ↦ answer left request_id name ip packet udph r.1 r.2
      ])
unfolding on_vgw
on_vgw-of match garbage left request_id name ip s packet udph m e f g =
    rw (e, f, g, text_eq_refl name) refl

-- A discovery that reaches the server of its name, whatever follows it in memory, changes nothing
-- and is answered with one frame: to the source of the discovery, MAC address, IP address and port,
-- with the result 1 behind its three headers of 42 bytes, where the client reads it as 1. The name has
-- fewer than 32 characters, none of them 0, both messages are written over at least 32 bytes of memory,
-- and the UDP header stands behind the IP header.
pub discovery_answered :
    (match : Regexp) (garbage : ℤ) (left left' : List ℕ) (request_id request_id' : ℕ) (name : Text)
    (ip : IpAddress) (s : Served) (packet : List ℕ) (udph : ℕ) (more : List ℕ)
    → length name < 32
    → no_zero name ≡ true
    → 32 ≤ length left
    → 32 ≤ length left'
    → 34 ≤ udph
    → drop (udph + 8) packet ≡ discovery_bytes left name request_id ++ more
    → (frame : List ℕ) × (on_vgw match garbage left' request_id' name ip s packet udph
        ≡ some (none, s, frame ∷ [], 1))
      × Answer ip packet udph (reply_bytes left' name request_id' 1) frame
      × (reply_result (drop 42 frame) ≡ some (pos 1))
unfolding discovery_bytes exec
discovery_answered match garbage left left' request_id request_id' name ip s packet udph more n z l
      l' h e =
    let rest = take 3 (left ++ replicate 3 0) ++ more in
    let m = header_bytes left name request_id type_discovery rest in
    let e' = e ∙ header-append left name request_id type_discovery _ more in
    let long_enough : udph + 2 ≤ length packet = omega (
      arith,
      length-drop (udph + 8) packet,
      ap length e',
      header_long left name request_id type_discovery rest,
    ) in
    let (frame, answers, to_source) =
      answer-Answer left' request_id' name ip packet udph 1 s h long_enough in
    let (mac, saddr, sport, ip_crc, udp_crc, em, es, ep, is_it) = to_source in
    (
      frame,
      on_vgw-of match garbage left' request_id' name ip s packet udph m e'
            (header-protocol_id left name request_id type_discovery rest n z l)
            (header-name left name request_id type_discovery rest n z l)
          ∙ rw (header-type left name request_id type_discovery rest n z l) refl
          ∙ answers,
      to_source,
      ap (λ f. reply_result (drop 42 f)) is_it
          ∙ reply_result-reply_bytes left' name request_id' 1 n z l' (omega arith),
    )

-- What the server does after a command: the exception that leaves it, or its answer.
abbrev pub answered :
    List ℕ → ℕ → Text → IpAddress → List ℕ → ℕ → Option Exception × ℕ × Served → Option Dispatched
answered left request_id name ip packet udph r = elim r.0 [
  | some e ↦ some (some e, r.2, [], 0)
  | none ↦ answer left request_id name ip packet udph r.1 r.2
]

command_read :
    (left : List ℕ) (cmd : Text) (more : List ℕ)
    → length cmd < 256
    → no_zero cmd ≡ true
    → c_string ((command_field left cmd ++ take 3 (left ++ replicate 3 0)) ++ more) ≡ some cmd
command_read left cmd more nc zc =
    let pad = take 3 (left ++ replicate 3 0) in
    let held = take (255 - length cmd) left in
    ap (λ f. c_string ((f ++ pad) ++ more)) (command_field-fits left cmd nc)
    ∙ ap (λ f. c_string (f ++ more)) (append_assoc' cmd (0 ∷ held) pad)
    ∙ ap c_string (append_assoc' cmd (0 ∷ (held ++ pad)) more)
    ∙ c_string-append cmd ((held ++ pad) ++ more) zc

-- A command of fewer than 256 characters, none of them 0, that reaches the server of its name,
-- whatever follows it in memory: the server runs exactly that command, and answers with its result
-- unless an exception that is no std::exception leaves it. The name has fewer than 32 characters,
-- none of them 0, and the message is written over at least 32 bytes of memory.
pub command_delivered :
    (match : Regexp) (garbage : ℤ) (left left' : List ℕ) (request_id request_id' : ℕ)
    (name cmd : Text) (ip : IpAddress) (s : Served) (packet : List ℕ) (udph : ℕ) (more : List ℕ)
    → length name < 32
    → no_zero name ≡ true
    → length cmd < 256
    → no_zero cmd ≡ true
    → 32 ≤ length left
    → drop (udph + 8) packet ≡ command_bytes left name request_id cmd ++ more
    → on_vgw match garbage left' request_id' name ip s packet udph
      ≡ answered left' request_id' name ip packet udph (caught (run_command match garbage cmd s))
unfolding command_bytes exec
command_delivered match garbage left left' request_id request_id' name cmd ip s packet udph more n z
      nc zc l e =
    let rest = (command_field left cmd ++ take 3 (left ++ replicate 3 0)) ++ more in
    let m = header_bytes left name request_id type_server_command rest in
    let e' = e ∙ header-append left name request_id type_server_command _ more in
    on_vgw-of match garbage left' request_id' name ip s packet udph m e'
      (header-protocol_id left name request_id type_server_command rest n z l)
      (header-name left name request_id type_server_command rest n z l)
    ∙ rw
        (
          header-type left name request_id type_server_command rest n z l,
          header-rest left name request_id type_server_command rest n z l,
          command_read left cmd more nc zc,
        )
        refl
