-- ===== src/Net/Calls.antt =====
-- What a method of `socket` does to the system is a sequence of calls: a relation that holds over
-- each call, and over a reading of the clock into `last_transfer`, holds over every method.
use virtual_gw.Common.{ℕ, Bool, true, false, Option, none, some, List, if◌then◌else◌}
use virtual_gw.Common.Int.{ℤ}
use virtual_gw.Common.Text.{Text}
use virtual_gw.Net.Run.{
  look, peek, throw_net, go_on, returned, threw, undefined, Run, ◌>>◌, give, stuck, throw, call,
  call_only, throw_last_error, touch, Thrown, Outcome, Socket, ◌>>=◌,
}
use virtual_gw.Net.Error.{net_exception}
use virtual_gw.Net.Winsock.{Winsock, SockaddrIn}

-- One call by a method on the Winsock socket `s`.
pub data Called {W : Type 0} (os : Winsock W) (s : ℕ) (w : W) : W → Type 0 where
  by_get_tick_count : Called os s w (os.get_tick_count w).1
  by_listen : (n : ℤ) → Called os s w (os.listen w s n).1
  by_accept : Called os s w (os.accept w s).1
  by_bind : (a : SockaddrIn) → Called os s w (os.bind w s a).1
  by_connect : (a : SockaddrIn) → Called os s w (os.connect w s a).1
  by_getsockname : Called os s w (os.getsockname w s).1
  by_getpeername : Called os s w (os.getpeername w s).1
  by_send : (bytes : List ℕ) (flags : ℤ) → Called os s w (os.send w s bytes flags).1
  by_sendto :
      (bytes : List ℕ) (flags : ℤ) (a : SockaddrIn) → Called os s w (os.sendto w s bytes flags a).1
  by_ioctlsocket : Called os s w (os.ioctlsocket_fionread w s).1
  by_create_event : Called os s w (os.wsa_create_event w).1
  by_recv : (event : ℕ) (buffer : List ℕ) → Called os s w (os.wsa_recv w s event buffer).1
  by_overlapped_result :
      (event : ℕ) (buffer : List ℕ)
      → Called os s w (os.wsa_get_overlapped_result w s event buffer).1
  by_wait : (event time : ℕ) → Called os s w (os.wsa_wait w event time)
  by_reset_event : (event : ℕ) → Called os s w (os.wsa_reset_event w event)
  by_close_event : (event : ℕ) → Called os s w (os.wsa_close_event w event)
  by_recvfrom : (size flags : ℤ) → Called os s w (os.recvfrom w s size flags).1
  by_select_read : (sec usec : ℤ) → Called os s w (os.select_read w s sec usec).1
  by_select_write : (sec usec : ℤ) → Called os s w (os.select_write w s sec usec).1
  by_getsockopt : (level name : ℤ) → Called os s w (os.getsockopt w s level name).1
  by_setsockopt :
      (level name : ℤ) (bytes : List ℕ) → Called os s w (os.setsockopt w s level name bytes).1
  by_shutdown : (how : ℤ) → Called os s w (os.shutdown w s how).1
  by_closesocket : Called os s w (os.closesocket w s).1

-- A relation between the socket and the system before and after.
abbrev pub Change : Type 0 → Type 1
Change W = Socket → W → Socket → W → Type 0

pub record IsFrame {W : Type 0} (os : Winsock W) (R : Change W) : Type 0 where
  pub stay : (s : Socket) (w : W) → R s w s w
  pub join :
      (s : Socket) (w : W) (s' : Socket) (w' : W) (s'' : Socket) (w'' : W)
      → R s w s' w'
      → R s' w' s'' w''
      → R s w s'' w''
  pub over_call : (s : Socket) (w w' : W) → Called os s.s w w' → R s w s w'
  pub over_touch :
      (s : Socket) (w : W)
      → R s w (record s { last_transfer = (os.get_tick_count w).0 }) (os.get_tick_count w).1
  pub over_timeout : (s : Socket) (w : W) (timeout : ℕ) → R s w (record s { timeout = timeout }) w

-- A method that respects the relation.
pub record Respects {W : Type 0} (os : Winsock W) (R : Change W) {A : Type 0} (m : Run W A)
    : Type 0 where
  pub holds : (s : Socket) (w : W) → R s w (m s w).1 (m s w).2

module _ {W : Type 0} {os : Winsock W} {R : Change W} where
  pub give-Respects : {A : Type 0} (a : A) → IsFrame os R → Respects os R (give a)
  unfolding give
  give-Respects a fr = record { holds = λ s w. fr.stay s w }

  pub stuck-Respects : {A : Type 0} → IsFrame os R → Respects os R (stuck {A = A})
  unfolding stuck
  stuck-Respects fr = record { holds = λ s w. fr.stay s w }

  pub throw-Respects : {A : Type 0} (e : Thrown) → IsFrame os R → Respects os R (throw {A = A} e)
  unfolding throw
  throw-Respects e fr = record { holds = λ s w. fr.stay s w }

  pub call-Respects :
      {A : Type 0} (f : ℕ → W → A × W)
      → ((s : ℕ) (w : W) → Called os s w (f s w).1)
      → IsFrame os R
      → Respects os R (call f)
  unfolding call
  call-Respects f h fr = record { holds = λ s w. fr.over_call s w (f s.s w).1 (h s.s w) }

  pub call_only-Respects :
      (f : ℕ → W → W)
      → ((s : ℕ) (w : W) → Called os s w (f s w))
      → IsFrame os R
      → Respects os R (call_only f)
  unfolding call_only
  call_only-Respects f h fr = record { holds = λ s w. fr.over_call s w (f s.s w) (h s.s w) }

  throw_net-Respects :
      (A : Type 0) (m : Option Text) (s : Socket) (w : W)
      → IsFrame os R
      → R s w (throw_net {A = A} m s w).1 (throw_net {A = A} m s w).2
  unfolding throw_net throw stuck
  throw_net-Respects A none s w fr = fr.stay s w
  throw_net-Respects A (some m) s w fr = fr.stay s w

  pub throw_last_error-Respects :
      {A : Type 0} → IsFrame os R → Respects os R (throw_last_error os {A = A})
  unfolding throw_last_error
  throw_last_error-Respects {A} fr = record {
    holds = λ s w.
        throw_net-Respects A (net_exception (os.format_message w) (os.wsa_get_last_error w)) s w fr;
  }

  pub touch-Respects : IsFrame os R → Respects os R (touch os)
  unfolding touch
  touch-Respects fr = record { holds = λ s w. fr.over_touch s w }

  pub peek-Respects : {A : Type 0} (f : W → A) → IsFrame os R → Respects os R (peek f)
  unfolding peek
  peek-Respects f fr = record { holds = λ s w. fr.stay s w }

  pub look-Respects : {A : Type 0} (f : Socket → A) → IsFrame os R → Respects os R (look f)
  unfolding look
  look-Respects f fr = record { holds = λ s w. fr.stay s w }

  pub if-Respects :
      {A : Type 0} (b : Bool) {m k : Run W A}
      → Respects os R m
      → Respects os R k
      → Respects os R (if b then m else k)
  if-Respects true h k = h
  if-Respects false h k = k

  pub go_on-Respects :
      {A B : Type 0} (f : A → Run W B) (s : Socket) (w : W) (o : Outcome A) (s' : Socket) (w' : W)
      → ((a : A) → Respects os R (f a))
      → IsFrame os R
      → R s w s' w'
      → R s w (go_on f o s' w').1 (go_on f o s' w').2
  unfolding go_on
  go_on-Respects f s w (returned a) s' w' h fr k =
      fr.join s w s' w' (f a s' w').1 (f a s' w').2 k ((h a).holds s' w')
  go_on-Respects f s w (threw e) s' w' h fr k = k
  go_on-Respects f s w undefined s' w' h fr k = k

  pub bind-Respects :
      {A B : Type 0} {m : Run W A} {f : A → Run W B}
      → Respects os R m
      → ((a : A) → Respects os R (f a))
      → IsFrame os R
      → Respects os R (m >>= f)
  unfolding ◌>>=◌
  bind-Respects {A} {B} {m} {f} h k fr = record {
    holds = λ s w. go_on-Respects f s w (m s w).0 (m s w).1 (m s w).2 k fr (h.holds s w);
  }

  pub then-Respects :
      {B : Type 0} {m : Run W (Unit {0})} {k : Run W B}
      → Respects os R m
      → Respects os R k
      → IsFrame os R
      → Respects os R (m >> k)
  unfolding ◌>>◌
  then-Respects h l fr = bind-Respects h (λ _. l) fr

pub ruleset frame_rules = (
  give-Respects, stuck-Respects, throw-Respects, call-Respects, call_only-Respects,
  throw_last_error-Respects, touch-Respects, look-Respects, peek-Respects, if-Respects,
  bind-Respects, then-Respects, by_get_tick_count, by_listen, by_accept, by_bind, by_connect,
  by_getsockname, by_getpeername, by_send, by_sendto, by_ioctlsocket, by_create_event, by_recv,
  by_overlapped_result, by_wait, by_reset_event, by_close_event, by_recvfrom, by_select_read,
  by_select_write, by_getsockopt, by_setsockopt, by_shutdown, by_closesocket,
)
