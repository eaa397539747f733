-- ===== src/Net/Run.antt =====
-- How a method of `socket` ends, and methods one after another: each changes the socket and the
-- system, and `throw` leaves the rest out.
use virtual_gw.Common.{ℕ, Option, none, some}
use virtual_gw.Common.Text.{Text}
use virtual_gw.Net.Winsock.{Winsock}
use virtual_gw.Net.Error.{net_exception}

-- What a method throws: a `net_exception` with its message, or a text.
pub data Thrown : Type 0 where
  net_error : Text → Thrown
  c_text : Text → Thrown

-- `undefined` is undefined behaviour: `front()` of an empty vector, or a message that is null.
pub data Outcome {ℓ} (A : Type ℓ) : Type ℓ where
  returned : A → Outcome A
  threw : Thrown → Outcome A
  undefined : Outcome A

-- The members of `socket`: the Winsock socket, when it last transferred something, and the time that
-- `receive` and `is_timeout` allow, in milliseconds, 0 for any.
pub record Socket : Type 0 where
  pub s : ℕ
  pub last_transfer : ℕ
  pub timeout : ℕ

abbrev pub Run : Type 0 → Type 0 → Type 0
Run W A = Socket → W → Outcome A × Socket × W

module _ {W : Type 0} where
  infixl 5 ◌>>=◌ ◌>>◌
  -- The rest of a method, behind what has ended so.
  unfoldable pub go_on : {A B : Type 0} → (A → Run W B) → Outcome A → Run W B
  go_on f (returned a) s w = f a s w
  go_on f (threw e) s w = (threw e, s, w)
  go_on f undefined s w = (undefined, s, w)

  unfoldable pub ◌>>=◌ : {A B : Type 0} → Run W A → (A → Run W B) → Run W B
  (m >>= f) s w = let r = m s w in go_on f r.0 r.1 r.2

  unfoldable pub ◌>>◌ : {B : Type 0} → Run W (Unit {0}) → Run W B → Run W B
  m >> k = m >>= λ _. k

  unfoldable pub give : {A : Type 0} → A → Run W A
  give a s w = (returned a, s, w)

  -- Undefined behaviour.
  unfoldable pub stuck : {A : Type 0} → Run W A
  stuck s w = (undefined, s, w)

  unfoldable pub throw : {A : Type 0} → Thrown → Run W A
  throw e s w = (threw e, s, w)

  -- A call of the system on the Winsock socket.
  unfoldable pub call : {A : Type 0} → (ℕ → W → A × W) → Run W A
  call f s w = let r = f s.s w in (returned r.0, s, r.1)

  -- One that gives nothing.
  unfoldable pub call_only : (ℕ → W → W) → Run W (Unit {0})
  call_only f s w = (returned tt, s, f s.s w)

  -- A look at the system that changes nothing.
  unfoldable pub peek : {A : Type 0} → (W → A) → Run W A
  peek f s w = (returned (f w), s, w)

  -- A look at a member of the socket.
  unfoldable pub look : {A : Type 0} → (Socket → A) → Run W A
  look f s w = (returned (f s), s, w)

module _ {W : Type 0} where
  -- `throw` of an exception with its message; one without is undefined behaviour.
  unfoldable pub throw_net : {A : Type 0} → Option Text → Run W A
  throw_net none = stuck
  throw_net (some message) = throw (net_error message)

module _ {W : Type 0} (os : Winsock W) where
  -- `throw net_exception(WSAGetLastError())`
  unfoldable pub throw_last_error : {A : Type 0} → Run W A
  throw_last_error s w =
      throw_net (net_exception (os.format_message w) (os.wsa_get_last_error w)) s w

  -- `last_transfer = GetTickCount()`
  unfoldable pub touch : Run W (Unit {0})
  touch s w = let r = os.get_tick_count w in (returned tt, record s { last_transfer = r.0 }, r.1)
