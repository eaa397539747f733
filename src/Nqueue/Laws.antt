-- ===== src/Nqueue/Laws.antt =====
-- Laws of a queue of src/nqueue.h: what `packet_out` sends, and the queues that never send.
use virtual_gw.Common.{
  ℕ, ◌+◌, ◌≤◌, ◌≡◌, refl, sym, ◌≢◌, ◌⊎◌, inl, inr, Bool, true, false, none, some, List, [], ◌∷◌,
  ◌++◌, arith, Bool-cases, >>=-eq-some, length, some_has,
}
use virtual_gw.Common.Int.{ℤ, pos, ◌≤ℤ◌}
use virtual_gw.Common.Words.{htons, Bytes}
use virtual_gw.Protocols.Ethernet.{read_ether_type}
use virtual_gw.Protocols.Ip.{read_ver_ihl, ip_len}
use virtual_gw.Nqueue.{
  after_all, Out, send_front, new_nqueue, packet_in, can_pop_all, packet_out, Nqueue,
}
use virtual_gw.Packets.{Npacket, PacketsRawQueue, pop, push, new_queue}
use virtual_gw.Packets.Laws.{pop_takes}
use virtual_gw.Qdisc.{Qdisc, can_pop, band, delay}
use virtual_gw.Qdisc.Delay.{DelayQdisc}
use virtual_gw.Qdisc.Delay.Laws.{can_pop_never}
use virtual_gw.Qdisc.Band
use virtual_gw.Qdisc.Band.{BandQdisc}
use virtual_gw.Nfilter.Laws.{default_accepts}

-- A queue as its constructor leaves it takes every IPv4 packet that is long enough to hold its
-- headers, and sends nothing, at no time.
pub new_nqueue_swallows :
    (p : Npacket) (v : ℕ)
    → Bytes p.bytes
    → read_ether_type p.bytes ≡ some (htons 0x0800)
    → read_ver_ihl p.bytes ≡ some v
    → 14 + ip_len v + 4 ≤ length p.bytes
    → 34 ≤ length p.bytes
    → (n : Nqueue) × (packet_in new_nqueue p ≡ some (true, n))
      × (n.packets.packets ≡ p ∷ [])
      × ((rand : ℕ → ℕ) (used : ℕ) (time : ℤ) → packet_out rand used n time ≡ some (none, n, used))
unfolding packet_in packet_out new_nqueue push new_queue
new_nqueue_swallows p v b et ev h k = (
  record new_nqueue { packets = push (new_queue 10240) p },
  rw (default_accepts p.bytes v b et ev h k),
  refl,
  λ rand used time. refl,
)

delay_says_no :
    (rand : ℕ → ℕ) (used : ℕ) (time : ℤ) (d : DelayQdisc) (q : PacketsRawQueue)
    → (can_pop rand used (delay d) time q ≡ none)
      ⊎ (can_pop rand used (delay d) time q ≡ some (false, delay d, q, used))
unfolding can_pop
delay_says_no rand used time d q = elim (can_pop_never d time q) [
  | inl (some_packet, e) ↦ inr (ground (arith, e))
  | inr (no_packet, e) ↦ inl (ground (arith, e))
]

can_pop_all_delay :
    (rand : ℕ → ℕ) (used : ℕ) (time : ℤ) (ds rest : List Qdisc) (d : DelayQdisc)
    (q : PacketsRawQueue) (r : Bool × List Qdisc × PacketsRawQueue × ℕ)
    → can_pop_all rand used (ds ++ delay d ∷ rest) time q ≡ some r
    → r.0 ≡ false
unfolding can_pop_all
can_pop_all_delay rand used time [] rest d q r e = ground (arith, delay_says_no rand used time d q)
can_pop_all_delay rand used time (x ∷ ds) rest d q r e =
    let (one, e1, e2) = >>=-eq-some (can_pop rand used x time q) _ e in
    elim (Bool-cases one.0) [
      | inl yes' ↦
          let (rs, er, e3) =
            >>=-eq-some (can_pop_all rand one.3 (ds ++ delay d ∷ rest) time one.2) _
              (rw yes' at e2) in
          ground (arith, can_pop_all_delay rand one.3 time ds rest d one.2 rs er)
      | inr no' ↦ ground arith
    ]

packet_out_cases :
    (rand : ℕ → ℕ) (used : ℕ) (time : ℤ) (n : Nqueue) (out : Out) (l : List Qdisc)
    → n.qdisc_vec ≡ l
    → packet_out rand used n time ≡ some out
    → (out.0 ≡ none)
      ⊎ ((r : Bool × List Qdisc × PacketsRawQueue × ℕ) × (can_pop_all rand used l time n.packets
            ≡ some r)
          × (after_all n time r ≡ some out))
unfolding packet_out
packet_out_cases rand used time n out [] e h = inl (ground arith)
packet_out_cases rand used time n out (d ∷ ds) e h = inr (
    >>=-eq-some (can_pop_all rand used (d ∷ ds) time n.packets) (after_all n time)
      (rw (e, packet_out) at h))

-- A queue with a delay discipline among its disciplines never sends: whatever the others do, a call
-- of `packet_out` that ends sends nothing.
pub packet_out_delay :
    (rand : ℕ → ℕ) (used : ℕ) (time : ℤ) (ds rest : List Qdisc) (d : DelayQdisc) (n : Nqueue)
    (out : Out)
    → n.qdisc_vec ≡ ds ++ delay d ∷ rest
    → packet_out rand used n time ≡ some out
    → out.0 ≡ none
unfolding after_all
packet_out_delay rand used time ds rest d n out e h =
    elim (packet_out_cases rand used time n out (ds ++ delay d ∷ rest) e h) [
      | inl none_sent ↦ none_sent
      | inr (r, er, ea) ↦ ground (arith, can_pop_all_delay rand used time ds rest d n.packets r er)
    ]

some_ne_none {ℓ} : {A : Type ℓ} {a : A} → some a ≢ none
some_ne_none e = cc

after_all_sends :
    (n n' : Nqueue) (time : ℤ) (yes_all : Bool) (ds : List Qdisc) (q : PacketsRawQueue)
    (used used' : ℕ) (bytes : List ℕ)
    → after_all n time (yes_all, ds, q, used) ≡ some (some bytes, n', used')
    → (yes_all ≡ true)
      × (p : Npacket) × (q.packets ≡ p ∷ n'.packets.packets)
      × (bytes ≡ p.bytes)
      × (n'.qdisc_vec ≡ ds)
      × (used' ≡ used)
unfolding after_all send_front
after_all_sends n n' time true ds q used used' bytes h =
    let (out, e, k) = >>=-eq-some (pop q time) _ h in
    let e' : pop q time ≡ some (out.0, n'.packets) = ground arith in
    (refl, out.0, pop_takes q n'.packets out.0 time e', ground arith, ground arith, ground arith)
after_all_sends n n' time false ds q used used' bytes h = absurd (ground arith)

-- Every discipline has said yes, one after another, each on the queue that those before it have left:
-- the disciplines and the queue afterwards, with the draws of `rand` used.
abbrev pub AllYes :
    (ℕ → ℕ) → ℤ → ℕ → List Qdisc → PacketsRawQueue → List Qdisc → PacketsRawQueue → ℕ → Type 0
AllYes rand time used [] q ds' q' used' = (ds' ≡ []) × (q' ≡ q) × (used' ≡ used)
AllYes rand time used (d ∷ ds) q ds' q' used' =
    (d1 : Qdisc) × (q1 : PacketsRawQueue) × (used1 : ℕ) × (rest : List Qdisc) × (can_pop rand used d
        time q
      ≡ some (true, d1, q1, used1))
    × (ds' ≡ d1 ∷ rest)
    × AllYes rand time used1 ds q1 rest q' used'

can_pop_all-AllYes :
    (rand : ℕ → ℕ) (time : ℤ) (used : ℕ) (ds : List Qdisc) (q : PacketsRawQueue) (ds' : List Qdisc)
    (q' : PacketsRawQueue) (used' : ℕ)
    → can_pop_all rand used ds time q ≡ some (true, ds', q', used')
    → AllYes rand time used ds q ds' q' used'
unfolding can_pop_all
can_pop_all-AllYes rand time used [] q ds' q' used' e = (ground arith, ground arith, ground arith)
can_pop_all-AllYes rand time used (d ∷ ds) q ds' q' used' e =
    let (one, e1, e2) = >>=-eq-some (can_pop rand used d time q) _ e in
    elim (Bool-cases one.0) [
      | inl goes_on ↦
          let (rest, e3, e4) =
            >>=-eq-some (can_pop_all rand one.3 ds time one.2) _ (rw goes_on at e2) in
          (
            one.1,
            one.2,
            one.3,
            rest.1,
            ground arith,
            ground arith,
            can_pop_all-AllYes rand time one.3 ds one.2 rest.1 q' used' (ground arith),
          )
      | inr stops ↦ absurd (ground arith)
    ]

-- `packet_out` sends only where every discipline, and there is one, has said yes, in turn, each on the
-- queue that those before it have left. What it sends is the packet then in front, and that packet
-- is taken from the queue, which keeps the disciplines as their calls have left them.
pub packet_out_sends_front :
    (rand : ℕ → ℕ) (used : ℕ) (time : ℤ) (n n' : Nqueue) (used' : ℕ) (bytes : List ℕ)
    → packet_out rand used n time ≡ some (some bytes, n', used')
    → (ds : List Qdisc) × (q : PacketsRawQueue) × (p : Npacket) × AllYes rand time used n.qdisc_vec
        n.packets ds q used'
      × (n.qdisc_vec ≢ [])
      × (q.packets ≡ p ∷ n'.packets.packets)
      × (bytes ≡ p.bytes)
      × (n'.qdisc_vec ≡ ds)
unfolding packet_out
packet_out_sends_front rand used time n n' used' bytes h =
    elim (packet_out_cases rand used time n (some bytes, n', used') n.qdisc_vec refl h) [
      | inl none_sent ↦ absurd (some_ne_none none_sent)
      | inr (r, er, ea) ↦
          let (all_yes, p, takes, is_its, kept, draws) =
            after_all_sends n n' time r.0 r.1 r.2 r.3 used' bytes ea in
          (
            r.1,
            r.2,
            p,
            can_pop_all-AllYes rand time used n.qdisc_vec n.packets r.1 r.2 used' (ground arith),
            λ e.
                some_ne_none
                  (some_has (λ z. some bytes ≡ z.0) (sym (rw (e, packet_out) at h)) refl),
            takes,
            is_its,
            kept,
          )
    ]

-- A bandwidth discipline with rate 0 lets everything through, also nothing: alone on an empty queue
-- it makes `packet_out` take a packet that is not there.
packet_out_rate_zero :
    (rand : ℕ → ℕ) (used : ℕ) (time : ℤ) (b : BandQdisc) (n : Nqueue)
    → b.rate ≤ℤ pos 0
    → n.qdisc_vec ≡ band b ∷ []
    → n.packets.packets ≡ []
    → packet_out rand used n time ≡ none
unfolding packet_out after_all send_front can_pop_all can_pop Band.can_pop pop
packet_out_rate_zero rand used time b n h e k = ground arith
