-- ===== src/Client/Laws.antt =====
-- Where the members of a message of src/client.h and src/virtual_gw.h stand, read back from its bytes.
use virtual_gw.Common.{
  ℕ, zero, suc, ◌+◌, ◌-◌, ◌^◌, ◌≤◌, ◌<◌, ◌≡◌, refl, ap, ◌∙◌, inl, inr, Bool, true, false, some,
  List, [], ◌∷◌, ◌++◌, arith, ◌==◌, if◌then◌else◌, Bool-cases, length, get_elem?, take, drop,
  length-append,
}
use virtual_gw.Common.Int.{signed32}
use virtual_gw.Common.Words.{bytes32, read32, bytes32_inv}
use virtual_gw.Common.Text.{Text}
use virtual_gw.Vgw.{vgw_protocol_id, type_reply, name_field, read_protocol_id, read_type, c_string}
use virtual_gw.Client.Message.{header_bytes, command_field, reply_result}

-- A text that a C string can hold.
abbrev pub no_zero : Text → Bool
no_zero [] = true
no_zero (c ∷ s) = if c == 0 then false else no_zero s

pub c_string-append : (s m : Text) → no_zero s ≡ true → c_string (s ++ 0 ∷ m) ≡ some s
unfolding c_string
c_string-append [] m h = refl
c_string-append (c ∷ s) m h = elim (Bool-cases (c == 0)) [
  | inl z ↦ absurd (ground arith)
  | inr z ↦ rw (z, c_string-append s m (ground arith)) refl
]

get_elem?-append :
    (s t : List ℕ) (i : ℕ) → length s ≤ i → get_elem? (s ++ t) i ≡ get_elem? t (i - length s)
get_elem?-append [] t i h = ap (get_elem? t) (omega arith)
get_elem?-append (c ∷ s) t zero h = absurd (omega arith)
get_elem?-append (c ∷ s) t (suc i) h =
    get_elem?-append s t i (omega arith) ∙ ap (get_elem? t) (omega arith)

drop-append : (n : ℕ) (s t : List ℕ) → length s ≤ n → drop n (s ++ t) ≡ drop (n - length s) t
drop-append n [] t h = ap (λ k. drop k t) (omega arith)
drop-append zero (c ∷ s) t h = absurd (omega arith)
drop-append (suc n) (c ∷ s) t h = drop-append n s t (omega arith) ∙ ap (λ k. drop k t) (omega arith)

pub append_assoc' : (s t u : List ℕ) → (s ++ t) ++ u ≡ s ++ (t ++ u)
append_assoc' [] t u = refl
append_assoc' (c ∷ s) t u = ap (λ r. c ∷ r) (append_assoc' s t u)

take-all : (n : ℕ) (s : List ℕ) → length s ≤ n → take n s ≡ s
take-all zero [] h = refl
take-all (suc n) [] h = refl
take-all zero (c ∷ s) h = absurd (omega arith)
take-all (suc n) (c ∷ s) h = ap (λ r. c ∷ r) (take-all n s (omega arith))

pub length-take_long : (n : ℕ) (s : List ℕ) → n ≤ length s → length (take n s) ≡ n
length-take_long zero s h = refl
length-take_long (suc n) [] h = absurd (omega arith)
length-take_long (suc n) (c ∷ s) h = ap suc (length-take_long n s (omega arith))

-- A member for a text of which it holds fewer characters than it has bytes: the text, its zero, and
-- what the memory held.
length-zero_behind : (name : Text) → length (name ++ 0 ∷ []) ≡ length name + 1
length-zero_behind name = length-append name (0 ∷ [])

name_field-fits :
    (left : List ℕ) (name : Text)
    → length name < 32
    → name_field left name ≡ name ++ 0 ∷ take (31 - length name) left
unfolding name_field
name_field-fits left name h =
    rw
      (
        take-all 32 (name ++ 0 ∷ []) (omega (arith, length-zero_behind name)),
        length-zero_behind name,
      )
      (append_assoc' name (0 ∷ []) _ ∙ ap (λ n. name ++ 0 ∷ take n left) (omega arith))

length-name_field :
    (left : List ℕ) (name : Text)
    → length name < 32
    → 32 ≤ length left
    → length (name_field left name) ≡ 32
length-name_field left name h l = rw (name_field-fits left name h) (
    omega (
      arith,
      length-append name (0 ∷ take (31 - length name) left),
      length-take_long (31 - length name) left (omega arith),
    ))

pub command_field-fits :
    (left : List ℕ) (cmd : Text)
    → length cmd < 256
    → command_field left cmd ≡ cmd ++ 0 ∷ take (255 - length cmd) left
unfolding command_field
command_field-fits left cmd h =
    rw
      (take-all 256 (cmd ++ 0 ∷ []) (omega (arith, length-zero_behind cmd)), length-zero_behind cmd)
      (append_assoc' cmd (0 ∷ []) _ ∙ ap (λ n. cmd ++ 0 ∷ take n left) (omega arith))

module _ (left : List ℕ) (name : Text) (request_id type : ℕ) (rest : List ℕ) (n : length name < 32)
    (z : no_zero name ≡ true) (l : 32 ≤ length left) where
  abbrev message : List ℕ
  message = header_bytes left name request_id type rest

  pub header-protocol_id : read_protocol_id message ≡ some vgw_protocol_id
  unfolding header_bytes read32
  header-protocol_id = refl

  pub header-name : c_string (drop 4 message) ≡ some name
  unfolding header_bytes
  header-name =
      rw
        (
          name_field-fits left name n,
          append_assoc' name (0 ∷ take (31 - length name) left)
              (bytes32 request_id ++ (type ∷ rest)),
        )
        (c_string-append name _ z)

  pub header-type : read_type message ≡ some type
  unfolding header_bytes
  header-type =
      let f = length-name_field left name n l in
      get_elem?-append (name_field left name) (bytes32 request_id ++ (type ∷ rest)) 36
        (omega (arith, f))
      ∙ rw f refl

  pub header-rest : drop 41 message ≡ rest
  unfolding header_bytes
  header-rest =
      let f = length-name_field left name n l in
      drop-append 37 (name_field left name) (bytes32 request_id ++ (type ∷ rest)) (omega (arith, f))
      ∙ rw f refl

get_elem?-drop : (n i : ℕ) (xs : List ℕ) → n ≤ i → get_elem? xs i ≡ get_elem? (drop n xs) (i - n)
get_elem?-drop zero i xs h = ap (get_elem? xs) (omega arith)
get_elem?-drop (suc n) zero xs h = absurd (omega arith)
get_elem?-drop (suc n) (suc i) [] h = refl
get_elem?-drop (suc n) (suc i) (x ∷ xs) h =
    get_elem?-drop n i xs (omega arith) ∙ ap (get_elem? (drop n xs)) (omega arith)

-- Four bytes behind three others, 44 bytes from the start.
byte_behind :
    (m pad : List ℕ) (v i : ℕ)
    → drop 41 m ≡ pad ++ bytes32 v
    → length pad ≡ 3
    → 44 ≤ i
    → get_elem? m i ≡ get_elem? (bytes32 v) (i - 44)
byte_behind m pad v i e l h =
    get_elem?-drop 41 i m (omega arith)
    ∙ ap (λ xs. get_elem? xs (i - 41)) e
    ∙ get_elem?-append pad (bytes32 v) (i - 41) (omega arith)
    ∙ ap (get_elem? (bytes32 v)) (omega arith)

pub read32-behind :
    (m pad : List ℕ) (v : ℕ)
    → drop 41 m ≡ pad ++ bytes32 v
    → length pad ≡ 3
    → v < 2 ^ 32
    → read32 m 44 ≡ some v
unfolding read32
read32-behind m pad v e l h =
    rw
      (
        byte_behind m pad v 44 e l (omega arith),
        byte_behind m pad v 45 e l (omega arith),
        byte_behind m pad v 46 e l (omega arith),
        byte_behind m pad v 47 e l (omega arith),
      )
      (ap some (bytes32_inv v h))

pub reply_result-of :
    (m : List ℕ) (name : Text) (v : ℕ)
    → read_protocol_id m ≡ some vgw_protocol_id
    → c_string (drop 4 m) ≡ some name
    → read_type m ≡ some type_reply
    → read32 m 44 ≡ some v
    → reply_result m ≡ some (signed32 v)
unfolding reply_result
reply_result-of m name v e f g h = rw (e, f, g, h) refl
