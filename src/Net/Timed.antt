-- ===== src/Net/Timed.antt =====
-- What a transfer on a `socket` that succeeds does to `last_transfer`.
use virtual_gw.Common.{
  ℕ, ◌%◌, ◌^◌, ◌≤◌, ◌≡◌, refl, ◌≢◌, inl, inr, List, [], ◌∷◌, arith, ◌==◌, ==_iff, Bool-cases, take,
}
use virtual_gw.Common.Int.{ℤ}
use mathlib.Core.Path.{subst}
use virtual_gw.Net.Winsock.{Winsock}
use virtual_gw.Net.Run.{
  returned, threw, undefined, Run, go_on, ◌>>◌, give, stuck, touch, Outcome, Socket, ◌>>=◌,
}
use virtual_gw.Net.Address.{Address}
use virtual_gw.Net.Socket.{ready, getopt}
use virtual_gw.Net.Transfer.{resize, send, sendto, touch_if, pending, receive, receivefrom}
use virtual_gw.Net.Socket
use virtual_gw.Net.Calls.{Respects, frame_rules, give-Respects, then-Respects}
use virtual_gw.Net.Method.{Method, session}
use virtual_gw.Net.Sessions.{IsClock, Transferred, Transferred-IsFrame, session-respects}
use virtual_gw.Net.Stamps
use virtual_gw.Net.Stamps.{Stamps, Stamped, Stamped-after, Returns}

module _ {W : Type 0} (os : Winsock W) (clock : W → ℕ) (c : IsClock os clock) where
  send-Stamps : (bytes : List ℕ) → Stamps clock (λ n. Unit {0}) (send os bytes)
  unfolding send stuck Returns
  send-Stamps [] = record { holds = λ s w h. absurd h }
  send-Stamps (b ∷ bs) =
      Stamps.later-Stamps os clock c (search (frame_rules, (Stamps.timed os clock c)) depth 40)
        (λ n. Stamps.if-Stamps os clock c _ (Stamps.throw_last_error-Stamps os clock c _) (
          Stamps.touched-Stamps os clock c
            (search (frame_rules, (Stamps.timed os clock c)) depth 40)))

  sendto-Stamps : (a : Address) (bytes : List ℕ) → Stamps clock (λ n. Unit {0}) (sendto os a bytes)
  unfolding sendto stuck Returns
  sendto-Stamps a [] = record { holds = λ s w h. absurd h }
  sendto-Stamps a (b ∷ bs) =
      Stamps.later-Stamps os clock c (search (frame_rules, (Stamps.timed os clock c)) depth 40)
        (λ n. Stamps.if-Stamps os clock c _ (Stamps.throw_last_error-Stamps os clock c _) (
          Stamps.touched-Stamps os clock c
            (search (frame_rules, (Stamps.timed os clock c)) depth 40)))

  receivefrom-Stamps : (flags : ℤ) → Stamps clock (λ r. Unit {0}) (receivefrom os flags)
  unfolding receivefrom Socket.getopt
  receivefrom-Stamps flags =
      Stamps.later-Stamps os clock c (search (frame_rules, (Stamps.timed os clock c)) depth 40)
        (λ size.
          Stamps.later-Stamps os clock c (search (frame_rules, (Stamps.timed os clock c)) depth 40)
            (λ r. Stamps.if-Stamps os clock c _ (Stamps.throw_last_error-Stamps os clock c _) (
              Stamps.touched-Stamps os clock c
                (search (frame_rules, (Stamps.timed os clock c)) depth 40))))

  touch_if-Stamps : (n : ℕ) → Stamps clock (λ u. n ≢ 0) (touch_if os n)
  unfolding touch_if give Returns touch
  touch_if-Stamps n = elim (Bool-cases (n == 0)) [
    | inl e ↦ record { holds = λ s w. rw e (λ h. absurd (h ((==_iff n 0).0 e))) }
    | inr e ↦ record { holds = λ s w. rw e (λ h. (Stamps.touch-Stamps os clock c).holds s w tt) }
  ]

  -- `data` is cut to what was transferred.
  something_received : (n : ℕ) (buffer : List ℕ) → resize n buffer ≢ [] → n ≢ 0
  unfolding resize
  something_received n buffer h e = h (rw (e, take) refl)

  returned_last :
      {A : Type 0} (Q : A → Type 0) (a : A) (o : Outcome (Unit {0})) (s : Socket) (w : W)
      → Returns Q (go_on (λ _. give a) o s w).0
      → Q a
  unfolding go_on give Returns
  returned_last Q a (returned u) s w h = h
  returned_last Q a (threw e) s w h = absurd h
  returned_last Q a undefined s w h = absurd h

  -- The two ends of `receive`.
  counted-Stamps :
      (n : ℕ) (buffer : List ℕ)
      → Stamps clock (λ r. r ≢ []) (touch_if os n >> give (resize n buffer))
  unfolding ◌>>◌ give Returns
  counted-Stamps n buffer =
      Stamps.first-Stamps os clock c (touch_if-Stamps n)
        (λ _. give-Respects (resize n buffer) (Stamps.timed os clock c))
        (λ a t v. something_received n buffer)

  counted_then-Stamps :
      (n : ℕ) (buffer : List ℕ) {k : Run W (Unit {0})}
      → Respects os (Transferred clock) k
      → Stamps clock (λ r. r ≢ []) (touch_if os n >> (k >> give (resize n buffer)))
  unfolding ◌>>◌ ◌>>=◌
  counted_then-Stamps n buffer {k} h =
      Stamps.first-Stamps os clock c (touch_if-Stamps n)
        (λ _.
          then-Respects h (give-Respects (resize n buffer) (Stamps.timed os clock c))
            (Stamps.timed os clock c))
        (λ a t v r.
          something_received n buffer
            (returned_last (λ l. l ≢ []) (resize n buffer) (k t v).0 (k t v).1 (k t v).2 r))

  pending-Stamps :
      (event : ℕ) (buffer : List ℕ) → Stamps clock (λ r. r ≢ []) (pending os event buffer)
  unfolding pending ◌>>◌
  pending-Stamps event buffer =
      Stamps.later-Stamps os clock c (search (frame_rules, (Stamps.timed os clock c)) depth 40)
        (λ timeout.
          Stamps.later-Stamps os clock c (search (frame_rules, (Stamps.timed os clock c)) depth 40)
            (λ _.
              Stamps.later-Stamps os clock c
                (search (frame_rules, (Stamps.timed os clock c)) depth 40)
                (λ _.
                  Stamps.later-Stamps os clock c
                    (search (frame_rules, (Stamps.timed os clock c)) depth 40)
                    (λ r.
                      Stamps.later-Stamps os clock c
                        (search (frame_rules, (Stamps.timed os clock c)) depth 40)
                        (λ _. counted-Stamps r.number r.buffer)))))

  receive-Stamps : (buffer : List ℕ) → Stamps clock (λ r. r.1 ≢ []) (receive os buffer)
  unfolding receive ◌>>◌ give Returns
  receive-Stamps buffer =
      Stamps.later-Stamps os clock c (search (frame_rules, (Stamps.timed os clock c)) depth 40)
        (λ ready. Stamps.if-Stamps os clock c _ (Stamps.throw_last_error-Stamps os clock c _) (
          Stamps.later-Stamps os clock c (search (frame_rules, (Stamps.timed os clock c)) depth 40)
            (λ event.
              Stamps.later-Stamps os clock c
                (search (frame_rules, (Stamps.timed os clock c)) depth 40)
                (λ r.
                  Stamps.first-Stamps os clock c {P = λ b. b ≢ []}
                    (Stamps.if-Stamps os clock c _
                      (Stamps.later-Stamps os clock c
                        (search (frame_rules, (Stamps.timed os clock c)) depth 40)
                        (λ error. Stamps.if-Stamps os clock c _ (pending-Stamps event r.buffer) (
                          Stamps.later-Stamps os clock c
                            (search (frame_rules, (Stamps.timed os clock c)) depth 40)
                            (λ _. Stamps.throw_last_error-Stamps os clock c _))))
                      (counted_then-Stamps r.number r.buffer
                        (search (frame_rules, (Stamps.timed os clock c)) depth 40)))
                    (λ received. give-Respects _ (Stamps.timed os clock c))
                    (λ received t v h. h)))))

-- A transfer that succeeds; `receive` with at least a byte.
pub data Transfers {W : Type 0} (os : Winsock W) : Socket → W → Socket → W → Type 0 where
  sent :
      (bytes : List ℕ) (n : ℤ) (s : Socket) (w : W) (s' : Socket) (w' : W)
      → send os bytes s w ≡ (returned n, s', w')
      → Transfers os s w s' w'
  sent_to :
      (addr : Address) (bytes : List ℕ) (n : ℤ) (s : Socket) (w : W) (s' : Socket) (w' : W)
      → sendto os addr bytes s w ≡ (returned n, s', w')
      → Transfers os s w s' w'
  received :
      (buffer : List ℕ) (n : ℤ) (b : ℕ) (bytes : List ℕ) (s : Socket) (w : W) (s' : Socket) (w' : W)
      → receive os buffer s w ≡ (returned (n, b ∷ bytes), s', w')
      → Transfers os s w s' w'
  received_from :
      (flags n : ℤ) (from : Address) (bytes : List ℕ) (s : Socket) (w : W) (s' : Socket) (w' : W)
      → receivefrom os flags s w ≡ (returned (n, from, bytes), s', w')
      → Transfers os s w s' w'

-- A method that stamps the socket when it returns such a value, and has returned one.
stamped :
    {W : Type 0} (clock : W → ℕ) {A : Type 0} (P : A → Type 0) (m : Run W A) (a : A) (s : Socket)
    (w : W) (s' : Socket) (w' : W)
    → Stamps clock P m
    → P a
    → m s w ≡ (returned a, s', w')
    → Stamped clock s w s' w'
unfolding Returns
stamped clock P m a s w s' w' h p e =
    subst (λ r. Returns P r.0 → Stamped clock s w r.1 r.2) e (h.holds s w) p

transfer-Stamped :
    {W : Type 0} (os : Winsock W) (clock : W → ℕ)
    → IsClock os clock
    → (s : Socket) (w : W) (s' : Socket) (w' : W) → Transfers os s w s' w'
    → Stamped clock s w s' w'
transfer-Stamped os clock c _ _ _ _ (sent bytes n s w s' w' e) =
    stamped clock _ (send os bytes) n s w s' w' (send-Stamps os clock c bytes) tt e
transfer-Stamped os clock c _ _ _ _ (sent_to addr bytes n s w s' w' e) =
    stamped clock _ (sendto os addr bytes) n s w s' w' (sendto-Stamps os clock c addr bytes) tt e
transfer-Stamped os clock c _ _ _ _ (received buffer n b bytes s w s' w' e) =
    stamped clock _ (receive os buffer) (n, b ∷ bytes) s w s' w' (receive-Stamps os clock c buffer)
      (λ h. ground arith) e
transfer-Stamped os clock c _ _ _ _ (received_from flags n from bytes s w s' w' e) =
    stamped clock _ (receivefrom os flags) (n, from, bytes) s w s' w'
      (receivefrom-Stamps os clock c flags) tt e

-- On a clock that shows the time modulo 2 ^ 32 and that no call turns back: after a transfer that
-- succeeds, `receive` with at least a byte, and then any methods, in any order, whether they return
-- or throw, `last_transfer` is the time, modulo 2 ^ 32, of a moment since the transfer began and
-- not after now.
pub transfer_timed :
    {W : Type 0} (os : Winsock W) (clock : W → ℕ)
    → IsClock os clock
    → (s : Socket) (w : W) (s' : Socket) (w' : W) → Transfers os s w s' w'
    → (ms : List Method)
    → let r = session os ms s' w' in
      (t : ℕ) × (clock w ≤ t) × (t ≤ clock r.1) × (r.0.last_transfer ≡ t % 2 ^ 32)
transfer_timed os clock c s w s' w' h ms =
    let r = session os ms s' w' in
    Stamped-after (clock w) (clock w') (clock r.1) s'.last_transfer r.0.last_transfer
      (transfer-Stamped os clock c s w s' w' h)
      (session-respects os (Transferred clock) (Transferred-IsFrame os clock c) ms s' w')
