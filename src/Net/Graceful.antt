-- ===== src/Net/Graceful.antt =====
-- The loop of `graceful_shutdown` ends.
use virtual_gw.Common.{
  ℕ, zero, suc, ◌+◌, ◌*◌, ◌%◌, ◌^◌, ◌≤◌, ◌<◌, ◌≡◌, refl, ◌≢◌, inl, inr, Bool, true, false, none,
  ◌++◌, arith, leb, if◌then◌else◌, Bool-cases,
}
use virtual_gw.Common.Int.{ℤ}
use virtual_gw.Common.Words.{sub_u32, bytes16}
use virtual_gw.Net.Winsock.{Winsock}
use virtual_gw.Net.Run.{
  returned, threw, undefined, Run, go_on, ◌>>◌, give, throw, call, Outcome, Socket, ◌>>=◌,
}
use virtual_gw.Net.Close.{
  hl_sd_send, so_linger, peer_closed, check_time, get_tick, wait_closed, graceful_shutdown,
  end_shutdown,
}
use native.Mathlib.Nat.{add-mul, mul-le-mul_right}
use virtual_gw.Net.Calls.{Called, Change, IsFrame, by_get_tick_count, go_on-Respects}
use virtual_gw.Net.Sessions.{IsClock}
use virtual_gw.Net.Respects
use virtual_gw.Net.Socket.{shutdown, setopt_bytes, close, sol_socket}

time_passes :
    (start c0 now shown : ℕ)
    → start ≡ c0 % 2 ^ 32
    → shown ≡ now % 2 ^ 32
    → c0 ≤ now
    → now < c0 + 2 ^ 32
    → leb 1000 (sub_u32 shown start) ≡ false
    → now < c0 + 1000
time_passes start c0 now shown e f h k l = ground arith

-- The time that passes, `now`, in any unit of which there are `unit` in a millisecond: no call turns
-- it back and each reading of the clock takes at least one unit. The clock that `GetTickCount` shows
-- goes on in steps: it is not ahead of the time, and less than `lag` milliseconds behind it.
pub record TakesTime {W : Type 0} (os : Winsock W) (clock now : W → ℕ) (unit lag : ℕ) : Type 0 where
  pub never_back : (s : ℕ) (w w' : W) → Called os s w w' → now w ≤ now w'
  pub reading_takes : (w : W) → now w < now (os.get_tick_count w).1
  pub not_ahead : (w : W) → clock w * unit ≤ now w
  pub not_behind : (w : W) → now w < (clock w + lag) * unit

within : (a b unit : ℕ) → a ≤ b → a * unit ≤ b * unit
within a b unit h = mul-le-mul_right unit h

-- Within a second by the clock there are so many units at most.
units_left :
    (c0 k clock now unit lag : ℕ)
    → clock < c0 + 1000
    → c0 * unit + k ≤ now
    → now < (clock + lag) * unit
    → suc k ≤ (1000 + lag) * unit
units_left c0 k clock now unit lag h i j =
    let all = within (clock + lag) (c0 + (1000 + lag)) unit (omega arith) in
    let parts : (c0 + (1000 + lag)) * unit ≡ c0 * unit + (1000 + lag) * unit =
      add-mul c0 (1000 + lag) unit in
    omega (arith, all, parts)

module _ {W : Type 0} (os : Winsock W) (clock : W → ℕ) (c : IsClock os clock) (now : W → ℕ)
    (unit lag : ℕ) (takes : TakesTime os clock now unit lag) where
  abbrev Forward : Change W
  Forward s w s' w' = (clock w ≤ clock w') × (now w ≤ now w')

  Forward-IsFrame : IsFrame os Forward
  Forward-IsFrame = record {
    stay = λ s w. (omega arith, omega arith);
    join = λ s w s' w' s'' w'' h k. (omega (arith, h.0, k.0), omega (arith, h.1, k.1));
    over_call = λ s w w' h. (c.forward s.s w w' h, takes.never_back s.s w w' h);
    over_timeout = λ s w n. (omega arith, omega arith);
    over_touch = λ s w. (
      c.forward 0 w (os.get_tick_count w).1 by_get_tick_count,
      takes.never_back 0 w (os.get_tick_count w).1 by_get_tick_count,
    );
  }

  -- The turns that there can be within the second.
  abbrev turns : ℕ
  turns = (1000 + lag) * unit

  -- The check lets the loop go on only within a second, and takes time.
  check_passes :
      (start c0 : ℕ) (w : W)
      → start ≡ c0 % 2 ^ 32
      → c0 ≤ clock w
      → clock w < c0 + 2 ^ 32
      → leb 1000 (sub_u32 (os.get_tick_count w).0 start) ≡ false
      → clock w < c0 + 1000
  check_passes start c0 w e h k l =
      time_passes start c0 (clock w) (os.get_tick_count w).0 e (c.shown w) h k l

  open_ends :
      (fuel start c0 k : ℕ) (s : Socket) (w : W)
      → start ≡ c0 % 2 ^ 32
      → c0 ≤ clock w
      → c0 * unit + k ≤ now w
      → ((s' : Socket) (w' : W)
          → c0 ≤ clock w'
          → c0 * unit + suc k ≤ now w'
          → suc k ≤ turns
          → clock (wait_closed os fuel start s' w').2 < c0 + 2 ^ 32
          → (wait_closed os fuel start s' w').0 ≢ returned false)
      → let r = (check_time os start >> wait_closed os fuel start) s w in
        clock r.2 < c0 + 2 ^ 32 → r.0 ≢ returned false
  unfolding go_on ◌>>◌ ◌>>=◌ check_time give throw get_tick call
  open_ends fuel start c0 k s w e h g ih =
      elim (Bool-cases (leb 1000 (sub_u32 (os.get_tick_count w).0 start))) [
        | inl b ↦ rw b (λ l q. cc)
        | inr b ↦ rw b λ l.
            let later =
              (Respects.wait_closed-Respects os Forward Forward-IsFrame fuel start).holds s
                (os.get_tick_count w).1 in
            let on = c.forward 0 w (os.get_tick_count w).1 by_get_tick_count in
            let p = check_passes start c0 w e h (omega (arith, on, later.0, l)) b in
            ih s (os.get_tick_count w).1 (omega (arith, on))
              (omega (arith, takes.reading_takes w, g))
              (units_left c0 k (clock w) (now w) unit lag p g (takes.not_behind w)) l
      ]

  turn_ends :
      (fuel start c0 k : ℕ) (o : Outcome Bool) (s : Socket) (w : W)
      → start ≡ c0 % 2 ^ 32
      → c0 ≤ clock w
      → c0 * unit + k ≤ now w
      → ((s' : Socket) (w' : W)
          → c0 ≤ clock w'
          → c0 * unit + suc k ≤ now w'
          → suc k ≤ turns
          → clock (wait_closed os fuel start s' w').2 < c0 + 2 ^ 32
          → (wait_closed os fuel start s' w').0 ≢ returned false)
      → let r =
          go_on
            (λ closed.
              if closed then give true else (check_time os start >> wait_closed os fuel start))
            o
            s
            w in
        clock r.2 < c0 + 2 ^ 32 → r.0 ≢ returned false
  unfolding go_on ◌>>◌ ◌>>=◌ check_time give throw get_tick call
  turn_ends fuel start c0 k (returned true) s w e h g ih l = λ q. cc
  turn_ends fuel start c0 k (returned false) s w e h g ih l =
      open_ends fuel start c0 k s w e h g ih l
  turn_ends fuel start c0 k (threw x) s w e h g ih l = λ q. cc
  turn_ends fuel start c0 k undefined s w e h g ih l = λ q. cc

  wait_closed_ends :
      (fuel start c0 k : ℕ) (s : Socket) (w : W)
      → start ≡ c0 % 2 ^ 32
      → c0 ≤ clock w
      → c0 * unit + k ≤ now w
      → k ≤ turns
      → turns + 1 ≤ k + fuel
      → clock (wait_closed os fuel start s w).2 < c0 + 2 ^ 32
      → (wait_closed os fuel start s w).0 ≢ returned false
  unfolding wait_closed ◌>>=◌
  wait_closed_ends zero start c0 k s w e h g n f l = absurd (omega arith)
  wait_closed_ends (suc fuel) start c0 k s w e h g n f l =
      let r = peer_closed os s w in
      let later = (Respects.peer_closed-Respects os Forward Forward-IsFrame).holds s w in
      turn_ends fuel start c0 k r.0 r.1 r.2 e (omega (arith, later.0)) (omega (arith, g, later.1))
        (λ s' w' h' g' n' l'.
          wait_closed_ends fuel start c0 (suc k) s' w' e h' g' n' (omega (arith, f)) l')
        l

  go_on-never :
      {A B : Type 0} (x : B) (f : A → Run W B) (o : Outcome A) (s : Socket) (w : W)
      → ((a : A) (s' : Socket) (w' : W) → (f a s' w').0 ≢ returned x)
      → (go_on f o s w).0 ≢ returned x
  unfolding go_on
  go_on-never x f (returned a) s w h = h a s w
  go_on-never x f (threw e) s w h = λ q. cc
  go_on-never x f undefined s w h = λ q. cc

  end_shutdown_some : (s : Socket) (w : W) → (end_shutdown os true s w).0 ≢ returned none
  unfolding end_shutdown ◌>>=◌ give
  end_shutdown_some s w =
      go_on-never none _ (setopt_bytes os sol_socket so_linger (bytes16 1 ++ bytes16 1) s w).0 _ _
        (λ a s' w'. go_on-never none _ (close os s' w').0 _ _ (λ b s'' w'' q. cc))

  end_shutdown_ends :
      (o : Outcome Bool) (s : Socket) (w : W)
      → o ≢ returned false
      → (go_on (λ closed. end_shutdown os closed) o s w).0 ≢ returned none
  unfolding go_on
  end_shutdown_ends (returned true) s w h = end_shutdown_some s w
  end_shutdown_ends (returned false) s w h = absurd (h refl)
  end_shutdown_ends (threw e) s w h = λ q. cc
  end_shutdown_ends undefined s w h = λ q. cc

  started_ends :
      (o : Outcome ℤ) (s : Socket) (w : W)
      → let r =
          go_on
            (λ result. get_tick os >>= λ start.
              wait_closed os (turns + 1) start >>= λ closed. end_shutdown os closed)
            o
            s
            w in
        clock r.2 < clock w + 2 ^ 32 → r.0 ≢ returned none
  unfolding go_on ◌>>=◌ get_tick call
  started_ends (returned x) s w l =
      let on = c.forward 0 w (os.get_tick_count w).1 by_get_tick_count in
      let r = wait_closed os (turns + 1) (os.get_tick_count w).0 s (os.get_tick_count w).1 in
      let later =
        go_on-Respects {R = Forward} (λ closed. end_shutdown os closed) r.1 r.2 r.0 r.1 r.2
          (λ closed. Respects.end_shutdown-Respects os Forward Forward-IsFrame closed)
          Forward-IsFrame (omega arith, omega arith) in
      end_shutdown_ends r.0 r.1 r.2 (
        wait_closed_ends (turns + 1) (os.get_tick_count w).0 (clock w) 0 s (os.get_tick_count w).1
          (c.shown w) on (omega (arith, takes.not_ahead w, takes.reading_takes w)) (omega arith)
          (omega arith) (omega (arith, later.0, l)))
  started_ends (threw e) s w l = λ q. cc
  started_ends undefined s w l = λ q. cc

  -- On a clock that no call turns back and that is never more than `lag` milliseconds behind the time,
  -- where each reading takes at least one of `unit` units of a millisecond: the loop of
  -- `graceful_shutdown` needs no more than (1000 + lag) * unit turns and one, whatever the peer sends
  -- and the calls of the system return, if the whole takes less than the 2 ^ 32 milliseconds in which
  -- `GetTickCount` comes round. It returns, throws, or is undefined, but it does not go on.
  pub graceful_shutdown_ends :
      (s : Socket) (w : W)
      → clock (graceful_shutdown os ((1000 + lag) * unit + 1) s w).2 < clock w + 2 ^ 32
      → (graceful_shutdown os ((1000 + lag) * unit + 1) s w).0 ≢ returned none
  unfolding graceful_shutdown ◌>>=◌
  graceful_shutdown_ends s w l =
      let r = shutdown os hl_sd_send s w in
      started_ends r.0 r.1 r.2 (
        omega (
          arith,
          ((Respects.shutdown-Respects os Forward Forward-IsFrame hl_sd_send).holds s w).0,
          l,
        ))
