-- ===== src/Router/Pushes.antt =====
-- What the router of src/router.h hands to the queues.
use virtual_gw.Common.{
  ℕ, zero, suc, ◌+◌, ◌-◌, ◌≤◌, ◌≡◌, refl, sym, ap, ◌∙◌, ◌≢◌, ◌⊎◌, inl, inr, not, Option, none, some,
  List, [], ◌∷◌, arith, ltb, ◌==◌, Bool-cases, >>=-eq-some, length, take, drop, store_front,
  if-eq-some, some_has, store,
}
use virtual_gw.Common.Int.{ℤ}
use virtual_gw.Common.Words.{htons}
use virtual_gw.Protocols.Ethernet.{mac_eq, mac_bytes, read_mac, read_ether_type, MacAddress}
use virtual_gw.Protocols.Ip.{IpAddress, read_daddr}
use virtual_gw.Arp.{get_mac}
use virtual_gw.Dispatcher
use virtual_gw.Dispatcher.{QueueDispatcher}
use virtual_gw.Router.{Router, Routed, forward, resolve, dispatch}
use virtual_gw.Router.Laws.{take-length}

drop-store :
    (dst src : List ℕ) (off k : ℕ) → off + length src ≤ k → drop k (store dst off src) ≡ drop k dst
drop-store dst [] zero k h = refl
drop-store [] (b ∷ src) zero k h = refl
drop-store (x ∷ dst) (b ∷ src) zero zero h = absurd (omega arith)
drop-store (x ∷ dst) (b ∷ src) zero (suc k) h = drop-store dst src zero k (omega arith)
drop-store [] src (suc off) k h = refl
drop-store (x ∷ dst) src (suc off) zero h = absurd (omega arith)
drop-store (x ∷ dst) src (suc off) (suc k) h = drop-store dst src off k (omega arith)

take-none : (xs : List ℕ) {n : ℕ} → n ≡ 0 → take n xs ≡ []
take-none xs e = rw e refl

take-nil : (n : ℕ) → take {A = ℕ} n [] ≡ []
take-nil zero = refl
take-nil (suc n) = refl

drop-take : (k n : ℕ) (xs : List ℕ) → drop k (take n xs) ≡ take (n - k) (drop k xs)
drop-take zero n xs = ap (λ m. take m xs) (omega arith)
drop-take (suc k) zero xs = sym (take-none (drop (suc k) xs) (omega arith))
drop-take (suc k) (suc n) [] = sym (take-nil (suc n - suc k))
drop-take (suc k) (suc n) (x ∷ xs) = drop-take k n xs ∙ ap (λ m. take m (drop k xs)) (omega arith)

-- A packet that stands in the buffer with other addresses is the same behind them.
same_behind :
    (buffer data_bytes : List ℕ) (source dest : MacAddress)
    → length data_bytes ≤ length buffer
    → drop 12 (
        take
          (length data_bytes)
          (store (store (store buffer 0 data_bytes) 6 (mac_bytes source)) 0 (mac_bytes dest)))
      ≡ drop 12 data_bytes
same_behind buffer data_bytes source dest h =
    let n = length data_bytes in
    let placed = store buffer 0 data_bytes in
    let sourced = store placed 6 (mac_bytes source) in
    let whole =
      ap (take n) (store_front buffer data_bytes h)
      ∙ take-length data_bytes (drop n buffer) n refl in
    drop-take 12 n (store sourced 0 (mac_bytes dest))
    ∙ ap (take (n - 12)) (
        drop-store sourced (mac_bytes dest) 0 12 (omega arith)
        ∙ drop-store placed (mac_bytes source) 6 12 (omega arith))
    ∙ sym (drop-take 12 n placed)
    ∙ ap (drop 12) whole

-- `dispatch` leaves the queues alone, or offers them the packet with other MAC addresses, once.
abbrev pub Pushed : QueueDispatcher → ℤ → List ℕ → Routed → Type 0
Pushed d time packet r =
    (r.0.qm ≡ d)
    ⊎ ((f : List ℕ) × (drop 12 f ≡ drop 12 packet)
        × (Dispatcher.push d time f ≡ some (r.1, r.0.qm)))

none_ne_some {ℓ} : {A : Type ℓ} {a : A} → none ≢ some a
none_ne_some e = cc

resolve-Pushed :
    (r : Router) (time : ℤ) (packet : List ℕ) (daddr : IpAddress) (x : Routed)
    (m : Option MacAddress)
    → (get_mac r.arp_cln daddr).2 ≡ m
    → ((mac : MacAddress)
        → drop 12 (take (length packet) (store r.buffer 0 (mac_bytes mac))) ≡ drop 12 packet)
    → resolve r time (length packet) daddr ≡ some x
    → Pushed r.qm time packet x
unfolding resolve forward
resolve-Pushed r time packet daddr x none a h e =
    inl (some_has (λ z. z.0.qm ≡ r.qm) (rw (a, resolve) at e) refl)
resolve-Pushed r time packet daddr x (some mac) a h e =
    let f = take (length packet) (store r.buffer 0 (mac_bytes mac)) in
    let (out, e1, e2) = >>=-eq-some (Dispatcher.push r.qm time f) _ (rw (a, resolve) at e) in
    inr (f, h mac, e1 ∙ ap some (some_has (λ z. out ≡ (z.1, z.0.qm)) e2 refl))

pub dispatch-Pushed :
    (r : Router) (time : ℤ) (packet : List ℕ) (x : Routed)
    → dispatch r time packet ≡ some x
    → Pushed r.qm time packet x
unfolding dispatch
dispatch-Pushed r time packet x e =
    let (ether_type, e1, e2) = >>=-eq-some (read_ether_type packet) _ e in
    elim (if-eq-some (not (ether_type == htons 0x0800)) _ _ e2) [
      | inl k ↦ inl (some_has (λ z. z.0.qm ≡ r.qm) k refl)
      | inr k ↦
          let (dest, e3, e4) = >>=-eq-some (read_mac packet 0) _ k in
          elim (if-eq-some (not (mac_eq dest r.fake_mac)) _ _ e4) [
            | inl j ↦ inl (some_has (λ z. z.0.qm ≡ r.qm) j refl)
            | inr j ↦ elim (Bool-cases (ltb (length r.buffer) (length packet))) [
              | inl small ↦ absurd (none_ne_some (rw small at j))
              | inr fits ↦
                  let buffer = store (store r.buffer 0 packet) 6 (mac_bytes r.fake_mac) in
                  let (daddr, e5, e6) = >>=-eq-some (read_daddr buffer) _ (rw fits at j) in
                  resolve-Pushed (record r { buffer = buffer }) time packet daddr x
                    (get_mac r.arp_cln daddr).2 refl
                    (λ mac. same_behind r.buffer packet r.fake_mac mac (ground arith)) e6
            ]
          ]
    ]
