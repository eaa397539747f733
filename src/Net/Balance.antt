-- ===== src/Net/Balance.antt =====
-- `StartWinSock` and `StoptWinSock` over the life of all sockets of a process.
use virtual_gw.Common.{
  ℕ, zero, suc, ◌+◌, ◌^◌, ◌≤◌, ◌<◌, ◌≡◌, refl, sym, ◌∙◌, inl, inr, Bool, true, false, not, ◌||◌,
  Option, none, some, arith, ◌==◌, Bool-cases,
}
use virtual_gw.Common.Int.{ℤ, pos, sub_int-pos, add_int-pos}
use virtual_gw.Common.Text.{Text}
use virtual_gw.Net.Winsock.{invalid_socket, Winsock}
use virtual_gw.Net.Error.{net_exception}
use virtual_gw.Net.Run.{
  stuck, throw, go_on, give, call, look, throw_net, throw_last_error, ◌>>=◌, returned, threw,
  undefined, Outcome, Socket,
}
use virtual_gw.Net.Startup.{start_winsock, stop_winsock, startup, cleanup}
use virtual_gw.Net.Close.{adopt, create, destroy}
use virtual_gw.Net.Socket.{close}

-- The process: `socket_counter`, the sockets that are, and the constructors that threw.
pub record Process (W : Type 0) : Type 0 where
  pub socket_counter : ℤ
  pub live : ℕ
  pub failed : ℕ
  pub world : W

-- How a construction ends: with one more socket, or with one more failure.
unfoldable pub constructed : {W : Type 0} → Process W → Outcome Socket × ℤ × W → Process W
constructed p (returned s, counter, w) = record {
  socket_counter = counter;
  live = suc p.live;
  failed = p.failed;
  world = w;
}
constructed p (threw e, counter, w) = record {
  socket_counter = counter;
  live = p.live;
  failed = suc p.failed;
  world = w;
}
constructed p (undefined, counter, w) = record {
  socket_counter = counter;
  live = p.live;
  failed = suc p.failed;
  world = w;
}

abbrev pub adopted : {W : Type 0} → Process W → Socket × ℤ × W → Process W
adopted p r = record { socket_counter = r.1; live = suc p.live; failed = p.failed; world = r.2 }

abbrev pub destroyed : {W : Type 0} → Process W → ℕ → ℤ × W → Process W
destroyed p n r = record { socket_counter = r.0; live = n; failed = p.failed; world = r.1 }

-- The constructors and the destructor, one after another, from a process without sockets on; the
-- number of them stands first. Only a socket that is there can be destroyed.
pub data Reached {W : Type 0} (os : Winsock W) (w0 : W) : ℕ → Process W → Type 0 where
  at_first : Reached os w0 0 (record { socket_counter = pos 0; live = 0; failed = 0; world = w0 })
  by_adopt :
      (k : ℕ) (p : Process W) (new_s : ℕ)
      → Reached os w0 k p
      → Reached os w0 (suc k) (adopted p (adopt os new_s p.socket_counter p.world))
  by_create :
      (k : ℕ) (p : Process W) (af type protocol : ℤ)
      → Reached os w0 k p
      → Reached os w0 (suc k) (constructed p (create os af type protocol p.socket_counter p.world))
  by_destroy :
      (k : ℕ) (p : Process W) (socket : Socket) (n : ℕ)
      → Reached os w0 k p
      → p.live ≡ suc n
      → Reached os w0 (suc k) (destroyed p n (destroy os socket p.socket_counter p.world))

-- What Winsock promises: it grants version 2.2, a cleanup behind a start succeeds, and the other
-- calls neither start nor stop it.
pub record IsStarting {W : Type 0} (os : Winsock W) (started : W → Bool) : Type 0 where
  pub granted :
      (w : W) → ((os.wsa_startup w 0x0202).0.0 ≡ pos 0) × ((os.wsa_startup w 0x0202).0.1 ≡ 0x0202)
  pub starts : (w : W) → started (os.wsa_startup w 0x0202).1 ≡ true
  pub cleaned : (w : W) → (os.wsa_cleanup w).0 ≡ pos 0
  pub stops : (w : W) → started (os.wsa_cleanup w).1 ≡ false
  pub by_tick : (w : W) → started (os.get_tick_count w).1 ≡ started w
  pub by_socket :
      (w : W) (af type protocol : ℤ) → started (os.socket w af type protocol).1 ≡ started w
  pub by_closesocket : (w : W) (s : ℕ) → started (os.closesocket w s).1 ≡ started w

-- `socket_counter` counts `n` sockets, and Winsock is started if there is one.
abbrev pub Counts : {W : Type 0} → (W → Bool) → ℕ → ℤ → W → Type 0
Counts started n counter w = (counter ≡ pos n) × (started w ≡ not (n == 0))

module _ {W : Type 0} (os : Winsock W) (started : W → Bool) (h : IsStarting os started) where
  startup_starts : (w : W) → started (startup os w) ≡ true
  unfolding startup
  startup_starts w = rw ((h.granted w).0, (h.granted w).1) (h.starts w)

  cleanup_stops : (w : W) → started (cleanup os w) ≡ false
  unfolding cleanup
  cleanup_stops w = rw (h.cleaned w) (h.stops w)

  start-Counts :
      (n : ℕ) (counter : ℤ) (w : W)
      → n + 1 < 2 ^ 31
      → Counts started n counter w
      → let r = start_winsock os counter w in Counts started (suc n) r.0 r.1
  unfolding start_winsock
  start-Counts zero counter w b (e, f) = rw (e, add_int-pos 0 1 b) (refl, startup_starts w)
  start-Counts (suc n) counter w b (e, f) = rw (e, add_int-pos (suc n) 1 b) (ground arith)

  stop-Counts :
      (n : ℕ) (counter : ℤ) (w : W)
      → n + 1 < 2 ^ 31
      → Counts started (suc n) counter w
      → let r = stop_winsock os counter w in Counts started n r.0 r.1
  unfolding stop_winsock
  stop-Counts zero counter w b (e, f) =
      rw (e, sub_int-pos 1 1 (omega arith) b) (refl, cleanup_stops w)
  stop-Counts (suc n) counter w b (e, f) =
      rw (e, sub_int-pos (suc (suc n)) 1 (omega arith) (omega arith)) (ground arith)

  tick-Counts :
      (n : ℕ) (counter : ℤ) (w : W)
      → Counts started n counter w
      → Counts started n counter (os.get_tick_count w).1
  tick-Counts n counter w (e, f) = (e, h.by_tick w ∙ f)

  close_keeps : (s : Socket) (w : W) → started (close os s w).2 ≡ started w
  unfolding close look call give ◌>>=◌ go_on
  close_keeps s w = elim (Bool-cases (s.s == 0 || s.s == invalid_socket)) [
    | inl e ↦ rw e refl
    | inr e ↦ rw e (h.by_closesocket w s.s)
  ]

  throw_net_keeps : (m : Option Text) (s : Socket) (w : W) → (throw_net {A = Socket} m s w).2 ≡ w
  unfolding throw_net throw stuck
  throw_net_keeps none s w = refl
  throw_net_keeps (some m) s w = refl

  throw_keeps : (s : Socket) (w : W) → (throw_last_error os {A = Socket} s w).2 ≡ w
  unfolding throw_last_error
  throw_keeps s w =
      throw_net_keeps (net_exception (os.format_message w) (os.wsa_get_last_error w)) s w

  -- The construction, however it ends.
  create-Counts :
      (af type protocol : ℤ) (n : ℕ) (counter : ℤ) (w : W)
      → n + 1 < 2 ^ 31
      → Counts started n counter w
      → let r = create os af type protocol counter w in Counts started (suc n) r.1 r.2
  unfolding create
  create-Counts af type protocol n counter w b c =
      let begun = start_winsock os counter w in
      let made = os.socket begun.1 af type protocol in
      let fresh : Socket = record { s = made.0; last_transfer = 0; timeout = 0 } in
      let (e, f) = start-Counts n counter w b c in
      let f' = h.by_socket begun.1 af type protocol ∙ f in
      elim (Bool-cases (made.0 == invalid_socket)) [
        | inl i ↦ rw (i, throw_keeps fresh made.1) (e, f')
        | inr i ↦ rw i (e, h.by_tick made.1 ∙ f')
      ]

  recount :
      (a b : ℕ) {counter : ℤ} {w : W}
      → a ≡ b
      → Counts started a counter w
      → Counts started b counter w
  recount a b e c = rw (sym e) c

  constructed-Counts :
      (k : ℕ) (p : Process W) (r : Outcome Socket × ℤ × W)
      → p.live + p.failed ≤ k
      → Counts started (suc (p.live + p.failed)) r.1 r.2
      → let q = constructed p r in
        (q.live + q.failed ≤ suc k) × Counts started (q.live + q.failed) q.socket_counter q.world
  unfolding constructed
  constructed-Counts k p (returned s, counter, w) l c = (omega arith, recount _ _ (omega arith) c)
  constructed-Counts k p (threw e, counter, w) l c = (omega arith, recount _ _ (omega arith) c)
  constructed-Counts k p (undefined, counter, w) l c = (omega arith, recount _ _ (omega arith) c)

  -- Where Winsock grants version 2.2 and cleans up without an error: after fewer than 2 ^ 31
  -- constructions and destructions of sockets, `socket_counter` is the number of the sockets that
  -- are there together with the constructors that threw, and Winsock is started if and only if that
  -- number is not 0. So a constructor that threw keeps Winsock started.
  pub winsock_balance :
      (w0 : W) (k : ℕ) (p : Process W)
      → started w0 ≡ false
      → Reached os w0 k p
      → k < 2 ^ 31
      → (p.live + p.failed ≤ k) × Counts started (p.live + p.failed) p.socket_counter p.world
  unfolding adopt destroy
  winsock_balance w0 _ _ e at_first l = (omega arith, (refl, e))
  winsock_balance w0 _ _ e (by_adopt k p new_s r) l =
      let (n, c) = winsock_balance w0 k p e r (omega arith) in
      (
        omega arith,
        recount (suc (p.live + p.failed)) (suc p.live + p.failed) (omega arith) (
            tick-Counts (suc (p.live + p.failed)) _ _
              (start-Counts (p.live + p.failed) p.socket_counter p.world (omega arith) c)),
      )
  winsock_balance w0 _ _ e (by_create k p af type protocol r) l =
      let (n, c) = winsock_balance w0 k p e r (omega arith) in
      constructed-Counts k p (create os af type protocol p.socket_counter p.world) n (
        create-Counts af type protocol (p.live + p.failed) p.socket_counter p.world (omega arith) c)
  winsock_balance w0 _ _ e (by_destroy k p socket m r live) l =
      let (n, c) = winsock_balance w0 k p e r (omega arith) in
      let c' = recount (p.live + p.failed) (suc (m + p.failed)) (omega arith) c in
      (
        omega arith,
        stop-Counts (m + p.failed) p.socket_counter (close os socket p.world).2 (omega arith)
            (c'.0, close_keeps socket p.world ∙ c'.1),
      )
