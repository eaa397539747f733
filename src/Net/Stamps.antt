-- ===== src/Net/Stamps.antt =====
-- When a method of a `socket` reads the clock into `last_transfer` on its way to a result.
use virtual_gw.Common.{
  ℕ, ◌%◌, ◌^◌, ◌≤◌, ◌≡◌, ◌∙◌, ◌⊎◌, inl, inr, Bool, true, false, Option, none, some, arith,
  if◌then◌else◌,
}
use virtual_gw.Common.Text.{Text}
use virtual_gw.Net.Winsock.{Winsock}
use virtual_gw.Net.Error.{net_exception}
use virtual_gw.Net.Run.{
  returned, threw, undefined, Run, go_on, ◌>>◌, stuck, throw, throw_net, throw_last_error, touch,
  Outcome, Socket, ◌>>=◌,
}
use virtual_gw.Net.Calls.{by_get_tick_count, Change, IsFrame, Respects}
use virtual_gw.Net.Sessions.{IsClock, Transferred, Transferred-IsFrame}

-- `last_transfer` is the time of a moment between the two states.
abbrev pub Stamped : {W : Type 0} → (W → ℕ) → Change W
Stamped clock s w s' w' = (t : ℕ) × (clock w ≤ t) × (t ≤ clock w') × (s'.last_transfer ≡ t % 2 ^ 32)

-- The method returned a value with the property.
unfoldable pub Returns : {A : Type 0} → (A → Type 0) → Outcome A → Type 0
Returns P (returned a) = P a
Returns P (threw e) = ⊥
Returns P undefined = ⊥

-- Where the method returns such a value, it stamps the socket.
pub record Stamps {W : Type 0} (clock : W → ℕ) {A : Type 0} (P : A → Type 0) (m : Run W A)
    : Type 0 where
  pub holds : (s : Socket) (w : W) → Returns P (m s w).0 → Stamped clock s w (m s w).1 (m s w).2

Stamped-before :
    (c0 c1 c2 l0 l1 l2 : ℕ)
    → (c0 ≤ c1) × ((l1 ≡ l0) ⊎ ((t : ℕ) × (c0 ≤ t) × (t ≤ c1) × (l1 ≡ t % 2 ^ 32)))
    → (t : ℕ) × (c1 ≤ t) × (t ≤ c2) × (l2 ≡ t % 2 ^ 32)
    → (t : ℕ) × (c0 ≤ t) × (t ≤ c2) × (l2 ≡ t % 2 ^ 32)
Stamped-before c0 c1 c2 l0 l1 l2 h (t, a, b, e) = (t, omega (arith, h.0, a), b, e)

pub Stamped-after :
    (c0 c1 c2 l1 l2 : ℕ)
    → (t : ℕ) × (c0 ≤ t) × (t ≤ c1) × (l1 ≡ t % 2 ^ 32)
    → (c1 ≤ c2) × ((l2 ≡ l1) ⊎ ((t : ℕ) × (c1 ≤ t) × (t ≤ c2) × (l2 ≡ t % 2 ^ 32)))
    → (t : ℕ) × (c0 ≤ t) × (t ≤ c2) × (l2 ≡ t % 2 ^ 32)
Stamped-after c0 c1 c2 l1 l2 (t, a, b, e) (k, inl f) = (t, a, omega (arith, b, k), f ∙ e)
Stamped-after c0 c1 c2 l1 l2 (t, a, b, e) (k, inr (u, c, d, f)) = (u, omega (arith, a, b, c), d, f)

module _ {W : Type 0} (os : Winsock W) (clock : W → ℕ) (c : IsClock os clock) where
  pub timed : IsFrame os (Transferred clock)
  timed = Transferred-IsFrame os clock c

  pub touch-Stamps : Stamps clock (λ u. Unit {0}) (touch os)
  unfolding touch
  touch-Stamps = record {
    holds = λ s w _.
        (clock w, omega arith, c.forward 0 w (os.get_tick_count w).1 by_get_tick_count, c.shown w);
  }

  throw_net-Stamps :
      {A : Type 0} (P : A → Type 0) (message : Option Text) → Stamps clock P (throw_net message)
  unfolding throw_net throw stuck Returns
  throw_net-Stamps P none = record { holds = λ s w h. absurd h }
  throw_net-Stamps P (some message) = record { holds = λ s w h. absurd h }

  pub throw_last_error-Stamps : {A : Type 0} (P : A → Type 0) → Stamps clock P (throw_last_error os)
  unfolding throw_last_error
  throw_last_error-Stamps P = record {
    holds = λ s w.
        (throw_net-Stamps P (net_exception (os.format_message w) (os.wsa_get_last_error w))).holds s
          w;
  }

  pub if-Stamps :
      {A : Type 0} {P : A → Type 0} (b : Bool) {m k : Run W A}
      → Stamps clock P m
      → Stamps clock P k
      → Stamps clock P (if b then m else k)
  if-Stamps true h k = h
  if-Stamps false h k = k

  go_on-Stamps :
      {A B : Type 0} {P : B → Type 0} (f : A → Run W B) (s : Socket) (w : W) (o : Outcome A)
      (s' : Socket) (w' : W)
      → ((a : A) → Stamps clock P (f a))
      → Transferred clock s w s' w'
      → Returns P (go_on f o s' w').0
      → Stamped clock s w (go_on f o s' w').1 (go_on f o s' w').2
  unfolding go_on Returns
  go_on-Stamps f s w (returned a) s' w' h k r =
      Stamped-before (clock w) (clock w') (clock (f a s' w').2) s.last_transfer s'.last_transfer
        (f a s' w').1.last_transfer k ((h a).holds s' w' r)
  go_on-Stamps f s w (threw e) s' w' h k r = absurd r
  go_on-Stamps f s w undefined s' w' h k r = absurd r

  -- The rest of a method stamps the socket.
  pub later-Stamps :
      {A B : Type 0} {P : B → Type 0} {m : Run W A} {f : A → Run W B}
      → Respects os (Transferred clock) m
      → ((a : A) → Stamps clock P (f a))
      → Stamps clock P (m >>= f)
  unfolding ◌>>=◌
  later-Stamps {A} {B} {P} {m} {f} h k = record {
    holds = λ s w. go_on-Stamps f s w (m s w).0 (m s w).1 (m s w).2 k (h.holds s w);
  }

  on-Stamps :
      {A B : Type 0} {P : A → Type 0} (Q : B → Type 0) (f : A → Run W B) (s : Socket) (w : W)
      (o : Outcome A) (s' : Socket) (w' : W)
      → (Returns P o → Stamped clock s w s' w')
      → ((a : A) → Respects os (Transferred clock) (f a))
      → ((a : A) (t : Socket) (v : W) → Returns Q (f a t v).0 → P a)
      → Returns Q (go_on f o s' w').0
      → Stamped clock s w (go_on f o s' w').1 (go_on f o s' w').2
  unfolding go_on Returns
  on-Stamps Q f s w (returned a) s' w' h k q r =
      Stamped-after (clock w) (clock w') (clock (f a s' w').2) s'.last_transfer
        (f a s' w').1.last_transfer (h (q a s' w' r)) ((k a).holds s' w')
  on-Stamps Q f s w (threw e) s' w' h k q r = absurd r
  on-Stamps Q f s w undefined s' w' h k q r = absurd r

  -- The start of a method stamps the socket, where the rest returns what it should.
  pub first-Stamps :
      {A B : Type 0} {P : A → Type 0} {Q : B → Type 0} {m : Run W A} {f : A → Run W B}
      → Stamps clock P m
      → ((a : A) → Respects os (Transferred clock) (f a))
      → ((a : A) (t : Socket) (v : W) → Returns Q (f a t v).0 → P a)
      → Stamps clock Q (m >>= f)
  unfolding ◌>>=◌
  first-Stamps {A} {B} {P} {Q} {m} {f} h k q = record {
    holds = λ s w. on-Stamps Q f s w (m s w).0 (m s w).1 (m s w).2 (h.holds s w) k q;
  }

  -- A method that begins with `last_transfer = GetTickCount()`.
  pub touched-Stamps :
      {B : Type 0} {Q : B → Type 0} {k : Run W B}
      → Respects os (Transferred clock) k
      → Stamps clock Q (touch os >> k)
  unfolding ◌>>◌
  touched-Stamps h = first-Stamps touch-Stamps (λ _. h) (λ a t v r. tt)
