-- ===== src/Dispatcher/Table.antt =====
-- The `std::map<std::string, nqueue>` of src/nqueue.h: queues in the order of their names.
use virtual_gw.Common.{
  ◌≡◌, refl, inl, inr, true, Option, none, some, List, [], ◌∷◌, arith, if◌then◌else◌, Bool-cases,
}
use virtual_gw.Common.Text.{
  Text, text_eq, text_lt, text_eq_refl, text_eq_sound, text_lt_total, text_lt_trans,
}
use virtual_gw.Nqueue.{Nqueue, new_nqueue}

abbrev pub NqList : Type 0
NqList = List (Text × Nqueue)

-- `find`, where the code looks a name up.
unfoldable pub find : Text → NqList → Option Nqueue
find key [] = none
find key ((k, n) ∷ m) = if text_eq key k then some n else find key m

-- The queue that `nq_list[key]` gives: the one of that name, or a new one.
unfoldable pub entry : Text → NqList → Nqueue
entry key m = elim (find key m) [ none ↦ new_nqueue | some n ↦ n ]

-- `nq_list[key] = n`, in place or at the name's place in the order.
unfoldable pub assign : Text → Nqueue → NqList → NqList
assign key n [] = (key, n) ∷ []
assign key n ((k, n') ∷ m) =
    if text_eq key k
    then (k, n) ∷ m
    else if text_lt key k
    then (key, n) ∷ (k, n') ∷ m
    else (k, n') ∷ assign key n m

-- `erase`
unfoldable pub erase : Text → NqList → NqList
erase key [] = []
erase key ((k, n) ∷ m) = if text_eq key k then m else (k, n) ∷ erase key m

-- The names of the table rise.
abbrev pub Above : Text → NqList → Type 0
Above key [] = Unit {0}
Above key ((k, n) ∷ m) = (text_lt key k ≡ true) × Above key m

abbrev pub IsSorted : NqList → Type 0
IsSorted [] = Unit {0}
IsSorted ((k, n) ∷ m) = Above k m × IsSorted m

-- A lookup after an assignment, at every name.
pub find-assign :
    (key j : Text) (n : Nqueue) (m : NqList)
    → find j (assign key n m) ≡ (if text_eq j key then some n else find j m)
unfolding find assign
find-assign key j n [] = refl
find-assign key j n ((k, n') ∷ m) = ground (
  arith,
  find-assign key j n m,
  text_eq_sound key k,
  text_eq_sound j k,
  text_eq_sound j key,
  text_eq_refl k,
)

pub Above-lower : (key k : Text) (m : NqList) → text_lt key k ≡ true → Above k m → Above key m
Above-lower key k [] h a = tt
Above-lower key k ((j, n) ∷ m) h (a, above) =
    (text_lt_trans key k j h a, Above-lower key k m h above)

Above-assign :
    (k key : Text) (n : Nqueue) (m : NqList)
    → text_lt k key ≡ true
    → Above k m
    → Above k (assign key n m)
unfolding assign
Above-assign k key n [] h a = (h, tt)
Above-assign k key n ((j, n') ∷ m) h (a, above) = ground (arith, Above-assign k key n m h above)

-- The names stay in order.
pub assign-IsSorted :
    (key : Text) (n : Nqueue) (m : NqList) → IsSorted m → IsSorted (assign key n m)
unfolding assign
assign-IsSorted key n [] s = (tt, tt)
assign-IsSorted key n ((k, n') ∷ m) (a, s) = elim (Bool-cases (text_eq key k)) [
  | inl same ↦ rw same (a, s)
  | inr other ↦ elim (Bool-cases (text_lt key k)) [
    | inl before ↦ rw (other, before) ((before, Above-lower key k m before a), (a, s))
    | inr behind ↦
        rw (other, behind)
          (Above-assign k key n m (text_lt_total key k other behind) a, assign-IsSorted key n m s)
  ]
]
