-- ===== src/Net/Sessions.antt =====
-- What a session on a `socket` leaves as it was, and what it does to the clock.
use virtual_gw.Common.{ℕ, ◌%◌, ◌^◌, ◌≤◌, ◌≡◌, refl, ◌∙◌, ◌⊎◌, inl, inr, List, [], ◌∷◌, arith}
use virtual_gw.Net.Winsock.{Winsock}
use virtual_gw.Net.Run.{Run, Socket}
use virtual_gw.Net.Calls.{by_get_tick_count, Change, IsFrame, Respects, Called, frame_rules}
use virtual_gw.Net.Method.{Method, forget, perform, session}
use virtual_gw.Net.Respects

module _ {W : Type 0} (os : Winsock W) (R : Change W) (fr : IsFrame os R) where
  forget-Respects : {A : Type 0} {m : Run W A} → Respects os R m → Respects os R (forget os m)
  unfolding forget
  forget-Respects h = search frame_rules depth 40

  pub perform-Respects : (m : Method) → Respects os R (perform os m)
  unfolding perform
  perform-Respects (Method.listen n) = forget-Respects (Respects.listen-Respects os R fr n)
  perform-Respects Method.accept = forget-Respects (Respects.accept-Respects os R fr)
  perform-Respects (Method.bind a) = forget-Respects (Respects.bind-Respects os R fr a)
  perform-Respects Method.getaddress = forget-Respects (Respects.getaddress-Respects os R fr)
  perform-Respects Method.getpeeraddress =
      forget-Respects (Respects.getpeeraddress-Respects os R fr)
  perform-Respects (Method.connect a) = forget-Respects (Respects.connect-Respects os R fr a)
  perform-Respects (Method.send b) = forget-Respects (Respects.send-Respects os R fr b)
  perform-Respects (Method.sendto a b) = forget-Respects (Respects.sendto-Respects os R fr a b)
  perform-Respects (Method.receive b) = forget-Respects (Respects.receive-Respects os R fr b)
  perform-Respects (Method.receivefrom f) =
      forget-Respects (Respects.receivefrom-Respects os R fr f)
  perform-Respects (Method.canread t) = forget-Respects (Respects.canread-Respects os R fr t)
  perform-Respects (Method.canwrite t) = forget-Respects (Respects.canwrite-Respects os R fr t)
  perform-Respects (Method.getopt l n) = forget-Respects (Respects.getopt-Respects os R fr l n)
  perform-Respects (Method.setopt l n v) = forget-Respects (Respects.setopt-Respects os R fr l n v)
  perform-Respects (Method.setopt_bytes l n v) =
      forget-Respects (Respects.setopt_bytes-Respects os R fr l n v)
  perform-Respects (Method.shutdown h) = forget-Respects (Respects.shutdown-Respects os R fr h)
  perform-Respects Method.close = forget-Respects (Respects.close-Respects os R fr)
  perform-Respects (Method.graceful_shutdown fuel) =
      forget-Respects (Respects.graceful_shutdown-Respects os R fr fuel)
  perform-Respects Method.is_timeout = forget-Respects (Respects.is_timeout-Respects os R fr)
  perform-Respects (Method.set_timeout n) = Respects.set_timeout-Respects os R fr n

  pub session-respects :
      (ms : List Method) (s : Socket) (w : W) → R s w (session os ms s w).0 (session os ms s w).1
  unfolding session
  session-respects [] s w = fr.stay s w
  session-respects (m ∷ ms) s w =
      let r = perform os m s w in
      fr.join s w r.1 r.2 (session os ms r.1 r.2).0 (session os ms r.1 r.2).1
        ((perform-Respects m).holds s w) (session-respects ms r.1 r.2)

-- What the methods leave of a socket.
abbrev Keeps : {W : Type 0} → Change W
Keeps s w s' w' = s'.s ≡ s.s

Keeps-IsFrame : {W : Type 0} (os : Winsock W) → IsFrame os Keeps
Keeps-IsFrame os = record {
  stay = λ s w. refl;
  join = λ s w s' w' s'' w'' h k. k ∙ h;
  over_call = λ s w w' c. refl;
  over_touch = λ s w. refl;
  over_timeout = λ s w n. refl;
}

-- Whatever methods are called, in whatever order, and whether they return or throw: the socket
-- keeps its Winsock socket.
session_keeps :
    {W : Type 0} (os : Winsock W) (ms : List Method) (s : Socket) (w : W)
    → (session os ms s w).0.s ≡ s.s
session_keeps os ms s w = session-respects os Keeps (Keeps-IsFrame os) ms s w

-- The clock behind `GetTickCount`: it shows the time modulo 2 ^ 32 and no call turns it back.
pub record IsClock {W : Type 0} (os : Winsock W) (clock : W → ℕ) : Type 0 where
  pub shown : (w : W) → (os.get_tick_count w).0 ≡ clock w % 2 ^ 32
  pub forward : (s : ℕ) (w w' : W) → Called os s w w' → clock w ≤ clock w'

-- The last transfer, as `last_transfer` has it: a time that is not before `since` and not after now,
-- or what it was.
abbrev pub Transferred : {W : Type 0} → (W → ℕ) → Change W
Transferred clock s w s' w' =
    (clock w ≤ clock w')
    × ((s'.last_transfer ≡ s.last_transfer)
        ⊎ ((t : ℕ) × (clock w ≤ t) × (t ≤ clock w') × (s'.last_transfer ≡ t % 2 ^ 32)))

Transferred-join :
    (c0 c1 c2 l0 l1 l2 : ℕ)
    → c0 ≤ c1
    → c1 ≤ c2
    → (l1 ≡ l0) ⊎ ((t : ℕ) × (c0 ≤ t) × (t ≤ c1) × (l1 ≡ t % 2 ^ 32))
    → (l2 ≡ l1) ⊎ ((t : ℕ) × (c1 ≤ t) × (t ≤ c2) × (l2 ≡ t % 2 ^ 32))
    → (l2 ≡ l0) ⊎ ((t : ℕ) × (c0 ≤ t) × (t ≤ c2) × (l2 ≡ t % 2 ^ 32))
Transferred-join c0 c1 c2 l0 l1 l2 h k (inl e) (inl f) = inl (f ∙ e)
Transferred-join c0 c1 c2 l0 l1 l2 h k (inr (t, a, b, e)) (inl f) = inr (t, a, omega arith, f ∙ e)
Transferred-join c0 c1 c2 l0 l1 l2 h k e (inr (t, a, b, f)) = inr (t, omega arith, b, f)

pub Transferred-IsFrame :
    {W : Type 0} (os : Winsock W) (clock : W → ℕ)
    → IsClock os clock
    → IsFrame os (Transferred clock)
Transferred-IsFrame os clock c = record {
  stay = λ s w. (omega arith, inl refl);
  join = λ s w s' w' s'' w'' h k. (
    omega (arith, h.0, k.0),
    Transferred-join (clock w) (clock w') (clock w'') s.last_transfer s'.last_transfer
        s''.last_transfer h.0 k.0 h.1 k.1,
  );
  over_call = λ s w w' h. (c.forward s.s w w' h, inl refl);
  over_timeout = λ s w n. (omega arith, inl refl);
  over_touch = λ s w.
      let later = c.forward 0 w (os.get_tick_count w).1 by_get_tick_count in
      (later, inr (clock w, omega arith, later, c.shown w));
}
