-- ===== src/Dispatcher/Laws.antt =====
-- Laws of `queue_dispatcher` of src/nqueue.h: where an arriving packet goes, what a round of the
-- thread sends, and what a command leaves of the other queues.
use virtual_gw.Common.{
  ℕ, ◌≤◌, ◌≡◌, refl, ap, ◌∙◌, ◌⊎◌, inl, inr, Bool, true, false, none, some, List, [], ◌∷◌, ◌++◌,
  arith, leb, if◌then◌else◌, Bool-cases, Option-cases, >>=-eq-some, length, some_has,
}
use virtual_gw.Common.Int.{ℤ}
use virtual_gw.Common.Text.{Text, text_eq, text_eq_refl}
use virtual_gw.Common.Result.{Exception, Result, ok, thrown, Result-cases}
use virtual_gw.Nqueue.{Nqueue, packet_in, packet_out}
use virtual_gw.Packets.{Npacket, push}
use virtual_gw.Nfilter.{accepts}
use virtual_gw.Dispatcher.{offer, pump}
use virtual_gw.Dispatcher.Table.{
  NqList, find, entry, assign, find-assign, IsSorted, assign-IsSorted,
}
use virtual_gw.Dispatcher.Commands.{with_queue}

-- The names of a table.
unfoldable pub keys : NqList → List Text
keys [] = []
keys ((k, n) ∷ m) = k ∷ keys m

-- The filters of all queues of a table refuse a packet.
abbrev pub AllRefuse : NqList → Npacket → Type 0
AllRefuse [] p = Unit {0}
AllRefuse ((k, n) ∷ m) p = (accepts n.filter p.bytes ≡ some false) × AllRefuse m p

-- A queue with a packet behind those that wait, or, if these have passed its limit, without it.
abbrev pub Queued : Nqueue → Npacket → Nqueue → Type 0
Queued n p n' =
    (n'.packets.packets ≡ (
      if leb n.packets.total_data_size n.packets.total_limit
      then n.packets.packets ++ p ∷ []
      else n.packets.packets))
    × (n'.filter ≡ n.filter)
    × (n'.qdisc_vec ≡ n.qdisc_vec)

-- What `offer` does: the packet is in the first queue whose filter passes it, the filters of the
-- queues before it have refused it, and no other queue is changed.
abbrev pub Delivered : NqList → Npacket → NqList → Type 0
Delivered m p m' =
    (before : NqList) × (k : Text) × (n : Nqueue) × (n' : Nqueue) × (behind : NqList) × AllRefuse
      before p
    × ((accepts n.filter p.bytes ≡ some true) × Queued n p n')
    × (m ≡ before ++ (k, n) ∷ behind)
    × (m' ≡ before ++ (k, n') ∷ behind)

takes_Queued :
    (n n' : Nqueue) (p : Npacket)
    → packet_in n p ≡ some (true, n')
    → (accepts n.filter p.bytes ≡ some true) × Queued n p n'
unfolding packet_in push
takes_Queued n n' p e =
    let (mine, e1, e2) = >>=-eq-some (accepts n.filter p.bytes) _ e in
    elim (Bool-cases mine) [
      | inl b ↦
          (e1 ∙ ap some b, some_has (λ z. Queued n p z.1) (rw b at e2) (ground arith, refl, refl))
      | inr b ↦ absurd (ground arith)
    ]

pub refuses :
    (n n' : Nqueue) (p : Npacket)
    → packet_in n p ≡ some (false, n')
    → accepts n.filter p.bytes ≡ some false
unfolding packet_in
refuses n n' p e =
    let (mine, e1, e2) = >>=-eq-some (accepts n.filter p.bytes) _ e in
    elim (Bool-cases mine) [ inl b ↦ absurd (ground arith) | inr b ↦ e1 ∙ ap some b ]

pub refuse_keeps : (n n' : Nqueue) (p : Npacket) → packet_in n p ≡ some (false, n') → n' ≡ n
unfolding packet_in
refuse_keeps n n' p e =
    let (mine, e1, e2) = >>=-eq-some (accepts n.filter p.bytes) _ e in
    elim (Bool-cases mine) [ inl yes' ↦ absurd (ground arith) | inr no' ↦ ground arith ]

-- Where `push` puts a packet: behind the packets of the first queue whose filter passes it, if these
-- have not passed the queue's limit already, with no other queue changed; or, when every filter
-- refuses it, nowhere. Whether it is said to be taken tells the two apart.
pub offer_delivers :
    (m m' : NqList) (p : Npacket) (r : Bool)
    → offer m p ≡ some (r, m')
    → ((r ≡ true) × Delivered m p m') ⊎ ((r ≡ false) × (m' ≡ m) × AllRefuse m p)
unfolding offer
offer_delivers [] m' p r e = inr (ground arith, ground arith, tt)
offer_delivers ((k, n) ∷ m) m' p r e =
    let (one, e1, e2) = >>=-eq-some (packet_in n p) _ e in
    elim (Bool-cases one.0) [
      | inl yes' ↦ inl (
        ground arith,
        ([], k, n, one.1, m, tt, takes_Queued n one.1 p (ground arith), refl, ground arith),
      )
      | inr no' ↦
          let (rest, e3, e4) = >>=-eq-some (offer m p) _ (rw no' at e2) in
          let refused : packet_in n p ≡ some (false, one.1) = ground arith in
          let same = refuse_keeps n one.1 p refused in
          elim (offer_delivers m rest.1 p rest.0 e3) [
            | inl (t, (before, k', n1, n2, behind, a, b, c, d)) ↦ inl (
              ground arith,
              (
                (k, n) ∷ before,
                k',
                n1,
                n2,
                behind,
                (refuses n one.1 p refused, a),
                b,
                ground arith,
                ground arith,
              ),
            )
            | inr (f, c, a) ↦ inr (ground arith, ground arith, (refuses n one.1 p refused, a))
          ]
    ]

-- A round sends at most one packet for each queue, and the queues keep their names.
pub pump_one_each :
    (rand : ℕ → ℕ) (used used' : ℕ) (m m' : NqList) (time : ℤ) (sent : List (List ℕ))
    → pump rand used m time ≡ some (sent, m', used')
    → (length sent ≤ length m) × (keys m' ≡ keys m)
unfolding pump keys
pump_one_each rand used used' [] m' time sent e = (ground arith, ground arith)
pump_one_each rand used used' ((k, n) ∷ m) m' time sent e =
    let (out, e1, e2) = >>=-eq-some (packet_out rand used n time) _ e in
    let (rest, e3, e4) = >>=-eq-some (pump rand out.2 m time) _ e2 in
    let (le, same) = pump_one_each rand out.2 rest.2 m rest.1 time rest.0 e3 in
    elim (Option-cases out.0) [
      | inl nothing ↦ (ground arith, ground arith)
      | inr (bytes, something) ↦ (ground arith, ground arith)
    ]

pub with_queue_ok :
    (m : NqList) (key : Text) (op : Nqueue → Result Nqueue) (n : Nqueue)
    → op (entry key m) ≡ ok n
    → with_queue m key op ≡ (none, assign key n m)
unfolding with_queue
with_queue_ok m key op n r = rw (r, with_queue) refl

pub with_queue_thrown :
    (m : NqList) (key : Text) (op : Nqueue → Result Nqueue) (x : Exception)
    → op (entry key m) ≡ thrown x
    → with_queue m key op ≡ (some x, assign key (entry key m) m)
unfolding with_queue
with_queue_thrown m key op x r = rw (r, with_queue) refl

find-own : (key : Text) (n : Nqueue) (m : NqList) → find key (assign key n m) ≡ some n
find-own key n m = rw (find-assign key key n m, text_eq_refl key) refl

-- A command on one queue leaves every other queue as it was.
pub with_queue_local :
    (m : NqList) (key j : Text) (op : Nqueue → Result Nqueue)
    → text_eq j key ≡ false
    → find j (with_queue m key op).1 ≡ find j m
with_queue_local m key j op e = elim (Result-cases (op (entry key m))) [
  | inl (n, r) ↦ rw (with_queue_ok m key op n r, find-assign key j n m, e) refl
  | inr (x, r) ↦ rw (with_queue_thrown m key op x r, find-assign key j (entry key m) m, e) refl
]

-- The queue of a command's name after it: what the operation made of the queue that was there or of
-- a new one; where the operation throws, the old queue, or a new one under a name that had none.
pub with_queue_own :
    (m : NqList) (key : Text) (op : Nqueue → Result Nqueue)
    → ((n : Nqueue) × (op (entry key m) ≡ ok n)
        × ((with_queue m key op).0 ≡ none)
        × (find key (with_queue m key op).1 ≡ some n))
      ⊎ ((x : Exception) × (op (entry key m) ≡ thrown x)
          × ((with_queue m key op).0 ≡ some x)
          × (find key (with_queue m key op).1 ≡ some (entry key m)))
with_queue_own m key op = elim (Result-cases (op (entry key m))) [
  | inl (n, r) ↦ inl (
    n,
    r,
    rw (with_queue_ok m key op n r) refl,
    rw (with_queue_ok m key op n r) (find-own key n m),
  )
  | inr (x, r) ↦ inr (
    x,
    r,
    rw (with_queue_thrown m key op x r) refl,
    rw (with_queue_thrown m key op x r) (find-own key (entry key m) m),
  )
]

-- Every command keeps the names in order.
pub with_queue-IsSorted :
    (m : NqList) (key : Text) (op : Nqueue → Result Nqueue)
    → IsSorted m
    → IsSorted (with_queue m key op).1
with_queue-IsSorted m key op s = elim (Result-cases (op (entry key m))) [
  | inl (n, r) ↦ rw (with_queue_ok m key op n r) (assign-IsSorted key n m s)
  | inr (x, r) ↦ rw (with_queue_thrown m key op x r) (assign-IsSorted key (entry key m) m s)
]
