-- ===== src/Gateway/Together.antt =====
-- The loop of `main` in src/gate_way.cpp and the thread of `queue_dispatcher` of src/nqueue.h, the
-- rounds of the one and the steps of the other in any order. Both use the same dispatcher.
use virtual_gw.Common.{
  ℕ, ◌+◌, ◌≤◌, ◌≡◌, ap, inl, inr, Bool, false, none, some, List, [], ◌∷◌, ◌++◌, arith, drop,
}
use virtual_gw.Common.Int.{ℤ}
use virtual_gw.Gateway.{handle, Gateway}
use virtual_gw.Hl.Params.{Regexp}
use virtual_gw.Dispatcher.Table.{IsSorted}
use virtual_gw.Dispatcher.Thread.{Phase, System, Step}
use virtual_gw.Dispatcher.Order.{Step-IsSorted, Steps-IsSorted}
use virtual_gw.Dispatcher.Mass.{held_by}
use virtual_gw.Dispatcher.Conserve.{came, left, Step-balance, conserved}
use virtual_gw.Packets.Mass.{mass, mass-append}
use virtual_gw.Gateway.CtrlBreak.{ctrl_handler}
use virtual_gw.Gateway.Operates.{Comes, handle-Operated}

-- The process: the gateway, with the rest of what the dispatcher's thread keeps.
pub record Process : Type 0 where
  pub gateway : Gateway
  pub prev_time : ℤ
  pub should_stop : Bool
  pub phase : Phase

abbrev pub system_of : Process → System
system_of p = record {
  dispatcher = p.gateway.router.qm;
  prev_time = p.prev_time;
  should_stop = p.should_stop;
  phase = p.phase;
}

-- The process where the dispatcher has made a step.
abbrev pub after_step : Process → System → Process
after_step p t = record {
  gateway = record p.gateway { router = record p.gateway.router { qm = t.dispatcher } };
  prev_time = t.prev_time;
  should_stop = t.should_stop;
  phase = t.phase;
}

module _ (match : Regexp) (rand : ℕ → ℕ) where
  -- A turn: an event of the console, a packet that the loop handles without an exception, or a step of
  -- the dispatcher that is no arrival, as the thread's are.
  pub data Turn (p : Process) : Process → Type 0 where
    by_console :
        (event : ℕ)
        → Turn p (record p {
          gateway = record p.gateway {
            ctrl_break_pressed = (ctrl_handler event p.gateway.ctrl_break_pressed).1;
          };
        })
    by_packet :
        (garbage : ℤ) (left_bytes : List ℕ) (request_id : ℕ) (time : ℤ) (packet : List ℕ)
        (g : Gateway) (sent : List (List ℕ))
        → p.gateway.ctrl_break_pressed ≡ false
        → handle match garbage left_bytes request_id time p.gateway packet ≡ some (none, g, sent)
        → Turn p (record p { gateway = g })
    by_dispatcher :
        {t : System} (a : Step match rand (system_of p) t) → came a ≡ [] → Turn p (after_step p t)

  pub data Turns : Process → Process → Type 0 where
    no_turn : {p : Process} → Turns p p
    then_turn : {p q r : Process} → Turn p q → Turns q r → Turns p r

module _ {match : Regexp} {rand : ℕ → ℕ} where
  pub Turns-trans :
      {p q r : Process} → Turns match rand p q → Turns match rand q r → Turns match rand p r
  Turns-trans no_turn more = more
  Turns-trans (then_turn first rest) more = then_turn first (Turns-trans rest more)

  -- The packets that are read, and the frames that the dispatcher's steps send.
  abbrev read_by : {p q : Process} → Turn match rand p q → List (List ℕ)
  read_by (by_console event) = []
  read_by (by_packet garbage left_bytes request_id time packet g sent go e) = packet ∷ []
  read_by (by_dispatcher a e) = []

  abbrev sent_by : {p q : Process} → Turn match rand p q → List (List ℕ)
  sent_by (by_console event) = []
  sent_by (by_packet garbage left_bytes request_id time packet g sent go e) = []
  sent_by (by_dispatcher a e) = left a

  unfoldable pub all_read : {p q : Process} → Turns match rand p q → List (List ℕ)
  all_read no_turn = []
  all_read (then_turn first rest) = read_by first ++ all_read rest

  unfoldable pub all_sent : {p q : Process} → Turns match rand p q → List (List ℕ)
  all_sent no_turn = []
  all_sent (then_turn first rest) = sent_by first ++ all_sent rest

module _ (v : List ℕ → ℕ) where
  -- The measure of what stands behind the MAC addresses.
  abbrev pub behind_addresses : List ℕ → ℕ
  behind_addresses frame = v (drop 12 frame)

  abbrev waits : Process → ℕ
  waits p = held_by behind_addresses p.gateway.router.qm.nq_list

  abbrev Ordered : Process → Type 0
  Ordered p = IsSorted p.gateway.router.qm.nq_list

  Comes-mass :
      (got : List (List ℕ)) (packet : List ℕ)
      → Comes got packet
      → mass behind_addresses got ≤ behind_addresses packet
  Comes-mass got packet (inl none_came) = rw none_came (omega arith)
  Comes-mass got packet (inr (f, one, like)) = rw one (omega (arith, ap v like))

  Turn-Ordered :
      {match : Regexp} {rand : ℕ → ℕ} {p q : Process} → Turn match rand p q → Ordered p → Ordered q
  Turn-Ordered (by_console event) o = o
  Turn-Ordered {match} {rand} {p} (by_packet garbage left_bytes request_id time packet g sent go e)
        o =
      let (frames, out, got, (h, same, brought), f, c) =
        handle-Operated match rand (system_of p) garbage left_bytes request_id time p.gateway packet
          (none, g, sent) e in
      Steps-IsSorted match rand (system_of p) (system_of (record p { gateway = g })) h o
  Turn-Ordered {match} {rand} {p} (by_dispatcher {t} a e) o =
      Step-IsSorted match rand (system_of p) t a o

  Turn-balance :
      {match : Regexp} {rand : ℕ → ℕ} {p q : Process} (a : Turn match rand p q)
      → Ordered p
      → mass behind_addresses (sent_by a) + waits q ≤ mass behind_addresses (read_by a) + waits p
  Turn-balance (by_console event) o = omega arith
  Turn-balance {match} {rand} {p} (by_packet garbage left_bytes request_id time packet g sent go e)
        o =
      let (frames, out, got, (h, same, brought), f, c) =
        handle-Operated match rand (system_of p) garbage left_bytes request_id time p.gateway packet
          (none, g, sent) e in
      omega (
        arith,
        conserved behind_addresses h o,
        ap (mass behind_addresses) brought,
        Comes-mass got packet c,
      )
  Turn-balance (by_dispatcher a e) o =
      omega (arith, Step-balance behind_addresses a o, ap (mass behind_addresses) e)

  -- However the rounds of the loop of `main`, the events of the console and the steps of the
  -- dispatcher's thread follow one another, from queues in the order of their names: by any measure
  -- of what stands behind a frame's MAC addresses, what the thread sends and what waits at the end is
  -- no more than what was read and what waited at first.
  pub sent_was_read :
      {match : Regexp} {rand : ℕ → ℕ} {p q : Process} (turns : Turns match rand p q)
      → IsSorted p.gateway.router.qm.nq_list
      → mass behind_addresses (all_sent turns)
          + held_by behind_addresses q.gateway.router.qm.nq_list
        ≤ mass behind_addresses (all_read turns)
          + held_by behind_addresses p.gateway.router.qm.nq_list
  unfolding all_sent all_read
  sent_was_read no_turn o = omega arith
  sent_was_read (then_turn first rest) o = omega (
    arith,
    Turn-balance first o,
    sent_was_read rest (Turn-Ordered first o),
    mass-append behind_addresses (sent_by first) (all_sent rest),
    mass-append behind_addresses (read_by first) (all_read rest),
  )
