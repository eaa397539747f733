-- ===== src/Dispatcher/Mass.antt =====
-- What waits in all the queues of `queue_dispatcher` in src/nqueue.h, and what each operation leaves.
use virtual_gw.Common.Text.{text_lt_ne, Text, text_eq, text_lt}
use virtual_gw.Common.{
  ℕ, ◌+◌, ◌≤◌, ◌≡◌, refl, inl, inr, Bool, Option, none, some, List, [], ◌∷◌, arith, if◌then◌else◌,
  Bool-cases, Option-cases, >>=-eq-some,
}
use virtual_gw.Common.Int.{ℤ}
use virtual_gw.Packets.{new_queue, Npacket, show_stat}
use virtual_gw.Common.Result.{Result, ok, Result-cases}
use virtual_gw.Packets.Mass.{mass}
use virtual_gw.Nqueue.{Nqueue, new_nqueue, packet_in, packet_out}
use virtual_gw.Nqueue.Mass.{held, held-packet_in, held-packet_out}
use virtual_gw.Dispatcher.{offer, pump, show_stats}
use virtual_gw.Dispatcher.Table.{NqList, find, entry, assign, erase, Above, IsSorted, Above-lower}
use virtual_gw.Dispatcher.Commands.{with_queue}
use virtual_gw.Dispatcher.Laws.{with_queue_ok, with_queue_thrown}

find-Above : (key : Text) (m : NqList) → Above key m → find key m ≡ none
unfolding find
find-Above key [] a = refl
find-Above key ((k, n) ∷ m) (lt, a) = rw (text_lt_ne key k lt) (find-Above key m a)

module _ (w : List ℕ → ℕ) where
  abbrev pub held_by : NqList → ℕ
  held_by [] = 0
  held_by ((k, n) ∷ m) = held w n + held_by m

  -- An arrival waits in one queue, or in none.
  pub held_by-offer :
      (m m' : NqList) (p : Npacket) (r : Bool)
      → offer m p ≡ some (r, m')
      → held_by m' ≤ held_by m + (if r then w p.bytes else 0)
  unfolding offer
  held_by-offer [] m' p r e = ground arith
  held_by-offer ((k, n) ∷ m) m' p r e =
      let (one, e1, e2) = >>=-eq-some (packet_in n p) _ e in
      let first = held-packet_in w n one.1 p one.0 e1 in
      elim (Bool-cases one.0) [
        | inl taken ↦ ground arith
        | inr refused ↦
            let (rest, e3, e4) = >>=-eq-some (offer m p) _ (rw refused at e2) in
            ground (arith, held_by-offer m rest.1 p rest.0 e3)
      ]

  -- What a pass sends was waiting.
  pub held_by-pump :
      (rand : ℕ → ℕ) (used used' : ℕ) (m m' : NqList) (time : ℤ) (sent : List (List ℕ))
      → pump rand used m time ≡ some (sent, m', used')
      → mass w sent + held_by m' ≤ held_by m
  unfolding pump
  held_by-pump rand used used' [] m' time sent e = ground arith
  held_by-pump rand used used' ((k, n) ∷ m) m' time sent e =
      let (out, e1, e2) = >>=-eq-some (packet_out rand used n time) _ e in
      let (rest, e3, e4) = >>=-eq-some (pump rand out.2 m time) _ e2 in
      let first = held-packet_out w rand used out.2 n out.1 time out.0 e1 in
      let more = held_by-pump rand out.2 rest.2 m rest.1 time rest.0 e3 in
      elim (Option-cases out.0) [
        | inl nothing ↦ ground arith
        | inr (bytes, something) ↦ ground arith
      ]

  pub held_by-show_stats : (m : NqList) (time : ℤ) → held_by (show_stats m time).1 ≡ held_by m
  unfolding show_stats show_stat
  held_by-show_stats [] time = refl
  held_by-show_stats ((k, n) ∷ m) time = omega (arith, held_by-show_stats m time)

  pub held_by-erase : (key : Text) (m : NqList) → held_by (erase key m) ≤ held_by m
  unfolding erase
  held_by-erase key [] = omega arith
  held_by-erase key ((k, n) ∷ m) = ground (arith, held_by-erase key m)

  held_found : Option Nqueue → ℕ
  held_found none = 0
  held_found (some n) = held w n

  held-entry : (key : Text) (m : NqList) → held w (entry key m) ≡ held_found (find key m)
  unfolding entry held_found new_nqueue new_queue
  held-entry key m = elim (Option-cases (find key m)) [
    | inl new ↦ rw (new, entry) refl
    | inr (n, old) ↦ rw (old, entry) refl
  ]

  found-assign :
      (key : Text) (n : Nqueue) (m : NqList)
      → IsSorted m
      → held_by (assign key n m) + held_found (find key m) ≡ held_by m + held w n
  unfolding assign find held_found
  found-assign key n [] s = omega arith
  found-assign key n ((k, n') ∷ m) (a, s) = elim (Bool-cases (text_eq key k)) [
    | inl same ↦ rw same (omega arith)
    | inr other ↦ elim (Bool-cases (text_lt key k)) [
      | inl before ↦
          rw (other, before, find-Above key m (Above-lower key k m before a)) (omega arith)
      | inr behind ↦ rw (other, behind) (omega (arith, found-assign key n m s))
    ]
  ]

  -- A command whose operation adds no packet to its queue adds none.
  pub held_by-with_queue :
      (m : NqList) (key : Text) (op : Nqueue → Result Nqueue)
      → ((n n' : Nqueue) → op n ≡ ok n' → held w n' ≡ held w n)
      → IsSorted m
      → held_by (with_queue m key op).1 ≡ held_by m
  held_by-with_queue m key op keeps s = elim (Result-cases (op (entry key m))) [
    | inl (n, r) ↦
        rw (with_queue_ok m key op n r)
          (omega (arith, found-assign key n m s, held-entry key m, keeps (entry key m) n r))
    | inr (x, r) ↦
        rw (with_queue_thrown m key op x r)
          (omega (arith, found-assign key (entry key m) m s, held-entry key m))
  ]
