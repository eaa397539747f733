-- ===== src/Nqueue/Mass.antt =====
-- What a queue of src/nqueue.h holds and what it gives: packets come in and go out or are dropped, and
-- none is made.
use virtual_gw.Common.{
  ℕ, ◌+◌, ◌≤◌, ◌≡◌, refl, inl, inr, Bool, true, false, Option, none, some, List, [], ◌∷◌, arith,
  if◌then◌else◌, Bool-cases, >>=-eq-some,
}
use virtual_gw.Common.Int.{ℤ}
use virtual_gw.Packets.{Npacket, PacketsRawQueue, pop}
use virtual_gw.Packets.Laws.{pop_takes}
use virtual_gw.Packets.Mass.{waiting, mass, waiting-push}
use virtual_gw.Qdisc.{Qdisc, can_pop}
use virtual_gw.Qdisc.Mass.{waiting-can_pop}
use virtual_gw.Nqueue.{Nqueue, packet_in, can_pop_all, packet_out, send_front, after_all}

-- What goes out.
abbrev pub gone : Option (List ℕ) → List (List ℕ)
gone none = []
gone (some b) = b ∷ []

module _ (w : List ℕ → ℕ) where
  abbrev pub held : Nqueue → ℕ
  held n = waiting w n.packets.packets

  pub held-packet_in :
      (n n' : Nqueue) (p : Npacket) (r : Bool)
      → packet_in n p ≡ some (r, n')
      → held n' ≤ held n + (if r then w p.bytes else 0)
  unfolding packet_in
  held-packet_in n n' p r e = ground (arith, waiting-push w n.packets p)

  held-can_pop_all :
      (rand : ℕ → ℕ) (used : ℕ) (ds : List Qdisc) (time : ℤ) (q : PacketsRawQueue)
      (r : Bool × List Qdisc × PacketsRawQueue × ℕ)
      → can_pop_all rand used ds time q ≡ some r
      → waiting w r.2.packets ≤ waiting w q.packets
  unfolding can_pop_all
  held-can_pop_all rand used [] time q r e = ground arith
  held-can_pop_all rand used (d ∷ ds) time q r e =
      let (one, e1, e2) = >>=-eq-some (can_pop rand used d time q) _ e in
      let first = waiting-can_pop w rand used d time q one e1 in
      elim (Bool-cases one.0) [
        | inl goes_on ↦
            let (rest, e3, e4) =
              >>=-eq-some (can_pop_all rand one.3 ds time one.2) _ (rw goes_on at e2) in
            ground (arith, held-can_pop_all rand one.3 ds time one.2 rest e3)
        | inr stops ↦ ground arith
      ]

  held-send_front :
      (n n' : Nqueue) (used used' : ℕ) (time : ℤ) (out : Option (List ℕ))
      → send_front n used time ≡ some (out, n', used')
      → mass w (gone out) + held n' ≤ held n
  unfolding send_front
  held-send_front n n' used used' time out e =
      let (r, e1, e2) = >>=-eq-some (pop n.packets time) _ e in
      ground (arith, pop_takes n.packets r.1 r.0 time e1)

  held-after_all :
      (n n' : Nqueue) (time : ℤ) (all_yes : Bool) (ds : List Qdisc) (q : PacketsRawQueue)
      (used used' : ℕ) (out : Option (List ℕ))
      → after_all n time (all_yes, ds, q, used) ≡ some (out, n', used')
      → mass w (gone out) + held n' ≤ waiting w q.packets
  unfolding after_all
  held-after_all n n' time true ds q used used' out e =
      held-send_front (record n { qdisc_vec = ds; packets = q }) n' used used' time out e
  held-after_all n n' time false ds q used used' out e = ground arith

  packet_out_with :
      (rand : ℕ → ℕ) (used used' : ℕ) (n n' : Nqueue) (time : ℤ) (out : Option (List ℕ))
      (ds : List Qdisc)
      → n.qdisc_vec ≡ ds
      → packet_out rand used n time ≡ some (out, n', used')
      → mass w (gone out) + held n' ≤ held n
  unfolding packet_out
  packet_out_with rand used used' n n' time out [] h e = ground arith
  packet_out_with rand used used' n n' time out (d ∷ ds) h e =
      let (r, e1, e2) =
        >>=-eq-some (can_pop_all rand used (d ∷ ds) time n.packets) (after_all n time)
          (rw (h, packet_out) at e) in
      omega (
        arith,
        held-can_pop_all rand used (d ∷ ds) time n.packets r e1,
        held-after_all n n' time r.0 r.1 r.2 r.3 used' out e2,
      )

  -- A frame that goes out was there.
  pub held-packet_out :
      (rand : ℕ → ℕ) (used used' : ℕ) (n n' : Nqueue) (time : ℤ) (out : Option (List ℕ))
      → packet_out rand used n time ≡ some (out, n', used')
      → mass w (gone out) + held n' ≤ held n
  held-packet_out rand used used' n n' time out e =
      packet_out_with rand used used' n n' time out n.qdisc_vec refl e
