-- ===== src/Packets/Mass.antt =====
-- What waits in a packet queue of src/nqueue.h, weighed frame by frame: by any measure of a frame,
-- such as its length, or 1 for one frame and 0 for all others.
use virtual_gw.Common.{ℕ, ◌+◌, ◌≤◌, ◌≡◌, refl, some, List, [], ◌∷◌, ◌++◌, arith}
use virtual_gw.Common.Int.{ℤ}
use virtual_gw.Packets.{Npacket, PacketsRawQueue, push, drop_front, show_stat}

module _ (w : List ℕ → ℕ) where
  abbrev pub mass : List (List ℕ) → ℕ
  mass [] = 0
  mass (b ∷ bs) = w b + mass bs

  abbrev pub waiting : List Npacket → ℕ
  waiting [] = 0
  waiting (p ∷ ps) = w p.bytes + waiting ps

  pub mass-append : (xs ys : List (List ℕ)) → mass (xs ++ ys) ≡ mass xs + mass ys
  mass-append [] ys = omega arith
  mass-append (x ∷ xs) ys = omega (arith, mass-append xs ys)

  waiting-append : (ps rs : List Npacket) → waiting (ps ++ rs) ≡ waiting ps + waiting rs
  waiting-append [] rs = omega arith
  waiting-append (p ∷ ps) rs = omega (arith, waiting-append ps rs)

  -- A packet that comes adds itself or nothing.
  pub waiting-push :
      (q : PacketsRawQueue) (p : Npacket)
      → waiting (push q p).packets ≤ waiting q.packets + w p.bytes
  unfolding push
  waiting-push q p = ground (arith, waiting-append q.packets (p ∷ []))

  -- A packet that is dropped adds nothing.
  pub waiting-drop_front :
      (q q' : PacketsRawQueue) (time : ℤ)
      → drop_front q time ≡ some q'
      → waiting q'.packets ≤ waiting q.packets
  unfolding drop_front
  waiting-drop_front q q' time e = ground arith

  -- The statistics leave the packets alone.
  pub waiting-show_stat :
      (q : PacketsRawQueue) (time : ℤ) → waiting (show_stat q time).1.packets ≡ waiting q.packets
  unfolding show_stat
  waiting-show_stat q time = refl
