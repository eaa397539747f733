-- ===== src/Dhcp/Options/Laws.antt =====
-- The options of a DHCP reply in src/dhcp_client.h: what the loop reads from a list of options that a
-- server wrote, and how far it reads.
use virtual_gw.Common.{
  ℕ, zero, suc, ◌+◌, ◌*◌, ◌^◌, ◌≤◌, ◌<◌, ◌≡◌, refl, ◌∙◌, ◌≢◌, inl, inr, true, none, some, List, [],
  ◌∷◌, ◌++◌, arith, ltb, if◌then◌else◌, lt→ltb, Bool-cases, length, length-append,
}
use virtual_gw.Common.Words.{bytes32, read8, read8_in}
use virtual_gw.Protocols.Ip.{IpAddress}
use mathlib.Core.List.{append_assoc}
use virtual_gw.Dhcp.Memory.{At, At-left, At-right, At-read8, At-read32, At-start, read8_out}
use virtual_gw.Dhcp.Options.{Locals, option_step, parse_options}

-- An option as a server writes it: those that the client reads, and any other.
pub data DhcpOption : Type 0 where
  message_type : ℕ → DhcpOption
  server_id subnet_mask : IpAddress → DhcpOption
  other : ℕ → List ℕ → DhcpOption

-- Code, length, data.
abbrev pub option_bytes : DhcpOption → List ℕ
option_bytes (message_type t) = 53 ∷ 1 ∷ t ∷ []
option_bytes (server_id s) = 54 ∷ 4 ∷ bytes32 s
option_bytes (subnet_mask m) = 1 ∷ 4 ∷ bytes32 m
option_bytes (other code data_bytes) = code ∷ length data_bytes ∷ data_bytes

abbrev pub encode : List DhcpOption → List ℕ
encode [] = []
encode (o ∷ os) = option_bytes o ++ encode os

-- The values fit their fields, and no other option has a code of its own here or is the pad option,
-- which is a single byte 0: the loop takes the byte behind a pad for a length, so that it does not
-- read options with pads among them.
abbrev pub IsOption : DhcpOption → Type 0
IsOption (message_type t) = t < 256
IsOption (server_id s) = s < 2 ^ 32
IsOption (subnet_mask m) = m < 2 ^ 32
IsOption (other code data_bytes) =
    (code ≢ 0) × (code ≢ 255) × (code ≢ 53) × (code ≢ 54) × (code ≢ 1) × (length data_bytes < 256)

abbrev pub AllOptions : List DhcpOption → Type 0
AllOptions [] = Unit {0}
AllOptions (o ∷ os) = IsOption o × AllOptions os

-- What the options say, a later one replacing an earlier one.
abbrev pub learn : DhcpOption → Locals → Locals
learn (message_type t) l = record l { message_type = t }
learn (server_id s) l = record l { server = s }
learn (subnet_mask m) l = record l { mask = m }
learn (other code data_bytes) l = l

abbrev pub learn_all : List DhcpOption → Locals → Locals
learn_all [] l = l
learn_all (o ∷ os) l = learn_all os (learn o l)

-- The code and the size of an option.
abbrev code_of : DhcpOption → ℕ
code_of (message_type t) = 53
code_of (server_id s) = 54
code_of (subnet_mask m) = 1
code_of (other code data_bytes) = code

abbrev size_of : DhcpOption → ℕ
size_of (message_type t) = 1
size_of (server_id s) = 4
size_of (subnet_mask m) = 4
size_of (other code data_bytes) = length data_bytes

reads_header :
    (m : List ℕ) (i code size : ℕ) (data_bytes : List ℕ)
    → At m i (code ∷ size ∷ data_bytes)
    → (read8 m i ≡ some code) × (read8 m (i + 1) ≡ some size)
reads_header m i code size data_bytes a = (
  At-read8 m i i 0 code (code ∷ size ∷ data_bytes) a (omega arith) refl (omega arith),
  At-read8 m i (i + 1) 1 size (code ∷ size ∷ data_bytes) a refl refl (omega arith),
)

reads_code :
    (m : List ℕ) (i : ℕ) (o : DhcpOption)
    → At m i (option_bytes o)
    → (read8 m i ≡ some (code_of o)) × (read8 m (i + 1) ≡ some (size_of o))
reads_code m i (message_type t) a = reads_header m i 53 1 (t ∷ []) a
reads_code m i (server_id s) a = reads_header m i 54 4 (bytes32 s) a
reads_code m i (subnet_mask s) a = reads_header m i 1 4 (bytes32 s) a
reads_code m i (other code d) a = reads_header m i code (length d) d a

length-option_bytes : (o : DhcpOption) → length (option_bytes o) ≡ size_of o + 2
length-option_bytes (message_type t) = refl
length-option_bytes (server_id s) = refl
length-option_bytes (subnet_mask s) = refl
length-option_bytes (other code d) = omega arith

-- One option: the loop's step sets what the option says and stays at its place.
step_reads :
    (m : List ℕ) (i : ℕ) (o : DhcpOption) (l : Locals)
    → IsOption o
    → At m i (option_bytes o)
    → option_step m i l ≡ some (i, learn o l)
unfolding option_step
step_reads m i (message_type t) l v a =
    rw
      (
        (reads_code m i (message_type t) a).0,
        At-read8 m i (i + 2) 2 t (53 ∷ 1 ∷ t ∷ []) a refl refl (omega arith),
      )
      refl
step_reads m i (server_id s) l v a =
    rw ((reads_code m i (server_id s) a).0, At-read32 m i (i + 2) s (54 ∷ 4 ∷ []) [] v a refl) refl
step_reads m i (subnet_mask s) l v a =
    rw ((reads_code m i (subnet_mask s) a).0, At-read32 m i (i + 2) s (1 ∷ 4 ∷ []) [] v a refl) refl
step_reads m i (other code d) l v a = rw (reads_code m i (other code d) a).0 (ground (arith, v))

-- A round of the loop, and its end.
parse_step :
    (fuel : ℕ) (m : List ℕ) (i j n : ℕ) (l l' : Locals)
    → i < 300
    → option_step m i l ≡ some (j, l')
    → read8 m (j + 1) ≡ some n
    → parse_options (suc fuel) m i l ≡ parse_options fuel m (j + n + 2) l'
unfolding parse_options
parse_step fuel m i j n l l' b e r = rw (lt→ltb i 300 b, e, r) refl

parse_done :
    (fuel : ℕ) (m : List ℕ) (i : ℕ) (l : Locals) → 300 ≤ i → parse_options (suc fuel) m i l ≡ some l
unfolding parse_options
parse_done fuel m i l b = ground arith

end_step :
    (m : List ℕ) (i : ℕ) (l : Locals) → read8 m i ≡ some 255 → option_step m i l ≡ some (9999, l)
unfolding option_step
end_step m i l e = rw e refl

past_end :
    (fuel : ℕ) (m : List ℕ) (i : ℕ) (l : Locals)
    → i < 300
    → read8 m i ≡ some 255
    → read8 m 10000 ≡ none
    → parse_options (suc (suc fuel)) m i l ≡ none
unfolding parse_options
past_end fuel m i l b e r = rw (lt→ltb i 300 b, end_step m i l e, r) refl

-- The loop from an end option at `i` on: it goes on at 9999, and reads `options[10000]`.
at_end :
    (fuel : ℕ) (m : List ℕ) (i : ℕ) (l : Locals)
    → i < 300
    → read8 m i ≡ some 255
    → parse_options (suc (suc fuel)) m i l ≡ (if ltb 10000 (length m) then some l else none)
at_end fuel m i l b e = elim (Bool-cases (ltb 10000 (length m))) [
  | inl inside ↦
      let (n, en) = read8_in m 10000 (ground arith) in
      rw
        (
          inside,
          parse_step (suc fuel) m i 9999 n l l b (end_step m i l e) en,
          parse_done fuel m (9999 + n + 2) l (omega arith),
        )
        refl
  | inr outside ↦ rw outside (past_end fuel m i l b e (read8_out m 10000 (ground arith)))
]

parse_from :
    (os : List DhcpOption) (fuel : ℕ) (m : List ℕ) (i : ℕ) (l : Locals)
    → AllOptions os
    → length os + 1 < fuel
    → i + length (encode os) < 300
    → At m i (encode os ++ 255 ∷ [])
    → parse_options fuel m i l ≡ (if ltb 10000 (length m) then some (learn_all os l) else none)
parse_from os zero m i l v f b a = absurd (omega arith)
parse_from os (suc zero) m i l v f b a = absurd (omega arith)
parse_from [] (suc (suc fuel)) m i l v f b a =
    at_end fuel m i l (omega arith)
      (At-read8 m i i 0 255 (255 ∷ []) a (omega arith) refl (omega arith))
parse_from (o ∷ os) (suc (suc fuel)) m i l v f b a =
    let size = length-option_bytes o in
    let len = length-append (option_bytes o) (encode os) in
    let a' : At m i (option_bytes o ++ (encode os ++ 255 ∷ [])) =
      rw (append_assoc (option_bytes o) (encode os) (255 ∷ [])) at a in
    let here = At-left m i (option_bytes o) (encode os ++ 255 ∷ []) a' in
    let next =
      At-right m i (i + size_of o + 2) (option_bytes o) (encode os ++ 255 ∷ []) (omega arith) a' in
    parse_step (suc fuel) m i i (size_of o) l (learn o l) (omega arith)
      (step_reads m i o l v.0 here) (reads_code m i o here).1
    ∙ parse_from os (suc fuel) m (i + size_of o + 2) (learn o l) v.1 (omega arith) (omega arith)
        next

length-encode : (os : List DhcpOption) → 2 * length os ≤ length (encode os)
length-encode [] = omega arith
length-encode (o ∷ os) =
    omega
      (arith, length-encode os, length-append (option_bytes o) (encode os), length-option_bytes o)

-- The options of a reply: from the options that a server wrote, none of them a pad, with an end option
-- behind them and fewer than 300 bytes long, the loop reads just what they say, if 10001 bytes can be read from the
-- first option on. Where they cannot, it reads past the end of the memory: the end option sends the
-- loop's index to 9999, and the length at `options[10000]` is read once more.
pub parse_options_reads :
    (os : List DhcpOption) (rest : List ℕ) (l : Locals)
    → AllOptions os
    → length (encode os) < 300
    → parse_options 151 ((encode os ++ 255 ∷ []) ++ rest) 0 l ≡ (
        if ltb 10000 (length ((encode os ++ 255 ∷ []) ++ rest))
        then some (learn_all os l)
        else none)
parse_options_reads os rest l v b =
    parse_from os 151 ((encode os ++ 255 ∷ []) ++ rest) 0 l v (omega (arith, length-encode os))
      (omega arith) (At-start (encode os ++ 255 ∷ []) rest)

-- The same for a memory in which the loop stays.
pub parse_options_inside :
    (os : List DhcpOption) (m rest : List ℕ) (l : Locals)
    → AllOptions os
    → length (encode os) < 300
    → m ≡ (encode os ++ 255 ∷ []) ++ rest
    → 10001 ≤ length m
    → parse_options 151 m 0 l ≡ some (learn_all os l)
parse_options_inside os m rest l v b e h =
    let inside : ltb 10000 (length m) ≡ true = lt→ltb 10000 (length m) (omega arith) in
    rw e (parse_options_reads os rest l v b ∙ rw (← e, inside) refl)
