-- ===== src/Dispatcher/Atomic/Arrivals.antt =====
-- `push` and the commands of `queue_dispatcher` in src/nqueue.h, move by move.
use virtual_gw.Common.{
  ℕ, suc, ◌≡◌, refl, sym, ap, ◌∙◌, Bool, true, false, none, some, List, [], ◌∷◌, ◌++◌, get_elem?,
  set,
}
use virtual_gw.Common.Int.{ℤ}
use mathlib.Core.Path.{subst}
use virtual_gw.Common.Text.{Text}
use mathlib.Core.List.{append-nil}
use virtual_gw.Hl.Params.{Regexp}
use virtual_gw.Packets.{new_npacket}
use virtual_gw.Nqueue.{Nqueue, packet_in}
use virtual_gw.Dispatcher.{offer}
use virtual_gw.Dispatcher.Table.{NqList}
use virtual_gw.Dispatcher.Laws.{refuse_keeps}
use virtual_gw.Dispatcher.Thread.{Command, run_on, System, by_command, by_push}
use virtual_gw.Dispatcher.Locks.{
  nobody, pushes, commands, leaves, with_queues, made_packet, event_is, packet_of, Shared,
}
use virtual_gw.Dispatcher.Atomic.Loops
use virtual_gw.Dispatcher.Atomic.Loops.{
  behind-some, behind-none, set-behind, one_moved, length-snoc, refuse_more, offer_refused,
  offer_behind, push_refused,
}
use virtual_gw.Dispatcher.Atomic.During.{Pushing}
use virtual_gw.Dispatcher.Atomic.Simulation.{Sim, regroup}
use virtual_gw.Dispatcher.Atomic.Passes.{goes_on, commits}

packet_of-made :
    (c : System) (time : ℤ) (p : List ℕ)
    → packet_of (made_packet c time p) time p ≡ (new_npacket c.dispatcher.uid_base time p).1
unfolding packet_of new_npacket
packet_of-made c time p = refl

module _ (match : Regexp) (rand : ℕ → ℕ) (start : Shared) where
  pub Sim-push_enter :
      (s : Shared) (time : ℤ) (p : List ℕ)
      → Sim match rand start s nobody
      → Sim match rand start
          (record s { system = made_packet s.system time p; arrived = s.arrived ++ p ∷ [] })
          (pushes time p 0)
  Sim-push_enter s time p x = record {
    c = x.c;
    out = x.out;
    got = x.got;
    did = x.did;
    during = record {
      before = [];
      behind = x.c.dispatcher.nq_list;
      parts = refl;
      count = refl;
      refused = tt;
      shows = ap (λ z. made_packet z time p) x.during;
    };
    sent = x.sent;
    arrived = ap (λ z. z ++ p ∷ []) x.arrived ∙ regroup start.arrived x.got [] (p ∷ []);
  }

  -- The queue at the iterator, and its answer, as they were when the lock was taken.
  asked :
      (c s : System) (time : ℤ) (p : List ℕ) (i : ℕ) (k : Text) (n n' : Nqueue) (r : Bool)
      (d : Pushing c s time p i)
      → get_elem? s.dispatcher.nq_list i ≡ some (k, n)
      → packet_in n (packet_of s time p) ≡ some (r, n')
      → (behind : NqList) × (d.behind ≡ (k, n) ∷ behind)
        × (packet_in n (new_npacket c.dispatcher.uid_base time p).1 ≡ some (r, n'))
  asked c s time p i k n n' r d e h =
      let e1 = subst (λ z. get_elem? z.dispatcher.nq_list i ≡ some (k, n)) d.shows e in
      let e2 = subst (λ m. get_elem? m i ≡ some (k, n)) d.parts e1 in
      let (behind, eb) =
        behind-some d.before d.behind (k, n)
          (subst (λ j. get_elem? (d.before ++ d.behind) j ≡ some (k, n)) (sym d.count) e2) in
      let h1 = subst (λ z. packet_in n (packet_of z time p) ≡ some (r, n')) d.shows h in
      (behind, eb, subst (λ q. packet_in n q ≡ some (r, n')) (packet_of-made c time p) h1)

  pub Sim-push_next :
      (s : Shared) (time : ℤ) (p : List ℕ) (i : ℕ) (k : Text) (n n' : Nqueue)
      → get_elem? s.system.dispatcher.nq_list i ≡ some (k, n)
      → packet_in n (packet_of s.system time p) ≡ some (false, n')
      → Sim match rand start s (pushes time p i)
      → Sim match rand start
          (record s { system = with_queues s.system (set s.system.dispatcher.nq_list i (k, n')) })
          (pushes time p (suc i))
  Sim-push_next s time p i k n n' e h x =
      let d = x.during in
      let (behind, eb, said) = asked x.c s.system time p i k n n' false d e h in
      let q = (new_npacket x.c.dispatcher.uid_base time p).1 in
      let same = refuse_keeps n n' q said in
      let moved = one_moved x.c.dispatcher.nq_list d.before d.behind behind (k, n) d.parts eb in
      goes_on match rand start s (pushes time p i) (pushes time p (suc i)) x
        (with_queues s.system (set s.system.dispatcher.nq_list i (k, n'))) refl refl
        (record {
          before = d.before ++ (k, n) ∷ [];
          behind = behind;
          parts = moved;
          count = length-snoc d.before (k, n) i d.count;
          refused =
              refuse_more d.before q k n d.refused
                (subst (λ m. packet_in n q ≡ some (false, m)) same said);
          shows =
              ap (λ z. with_queues z (set z.dispatcher.nq_list i (k, n'))) d.shows
              ∙ ap (λ m. with_queues (made_packet x.c time p) m)
                  (ap (λ m. set x.c.dispatcher.nq_list i (k, m)) same
                    ∙ ap (λ m. set m i (k, n)) d.parts
                    ∙ set-behind d.before d.behind behind i (k, n) (k, n) d.count eb
                    ∙ sym moved);
        })

  pub Sim-push_taken :
      (s : Shared) (time : ℤ) (p : List ℕ) (i : ℕ) (k : Text) (n n' : Nqueue)
      → get_elem? s.system.dispatcher.nq_list i ≡ some (k, n)
      → packet_in n (packet_of s.system time p) ≡ some (true, n')
      → Sim match rand start s (pushes time p i)
      → Sim match rand start
          (record s {
            system =
                event_is (with_queues s.system (set s.system.dispatcher.nq_list i (k, n'))) true;
          })
          leaves
  Sim-push_taken s time p i k n n' e h x =
      let d = x.during in
      let (behind, eb, said) = asked x.c s.system time p i k n n' true d e h in
      let q = (new_npacket x.c.dispatcher.uid_base time p).1 in
      let queues = (d.before ++ (k, n') ∷ []) ++ behind in
      let whole = d.parts ∙ ap (λ r. d.before ++ r) eb in
      let offered =
        subst (λ m. offer m q ≡ some (true, queues)) (sym whole)
          (offer_behind d.before behind q k n n' d.refused said) in
      commits match rand start s (pushes time p i) leaves x
        (event_is (with_queues (made_packet x.c time p) queues) true)
        (event_is (with_queues s.system (set s.system.dispatcher.nq_list i (k, n'))) true) [] s.sent
        refl refl
        (by_push time p [] _ (Loops.push_taken x.c.dispatcher time p queues offered), refl, refl)
        (ap (λ z. event_is (with_queues z (set z.dispatcher.nq_list i (k, n'))) true) d.shows
          ∙ ap (λ m. event_is (with_queues (made_packet x.c time p) m) true)
              (ap (λ m. set m i (k, n')) d.parts
                ∙ set-behind d.before d.behind behind i (k, n) (k, n') d.count eb))
        (sym (append-nil s.sent))

  pub Sim-push_sent :
      (s : Shared) (time : ℤ) (p : List ℕ) (i : ℕ)
      → get_elem? s.system.dispatcher.nq_list i ≡ none
      → Sim match rand start s (pushes time p i)
      → Sim match rand start (record s { sent = s.sent ++ p ∷ [] }) leaves
  Sim-push_sent s time p i e x =
      let d = x.during in
      let q = (new_npacket x.c.dispatcher.uid_base time p).1 in
      let e1 = subst (λ z. get_elem? z.dispatcher.nq_list i ≡ none) d.shows e in
      let e2 = subst (λ m. get_elem? m i ≡ none) d.parts e1 in
      let ended =
        behind-none d.before d.behind
          (subst (λ j. get_elem? (d.before ++ d.behind) j ≡ none) (sym d.count) e2) in
      let all = d.parts ∙ ap (λ r. d.before ++ r) ended ∙ append-nil d.before in
      let offered =
        subst (λ m. offer m q ≡ some (false, m)) (sym all) (offer_refused d.before q d.refused) in
      commits match rand start s (pushes time p i) leaves x (made_packet x.c time p) s.system
        (p ∷ []) (s.sent ++ p ∷ []) refl refl
        (
          by_push time p (p ∷ []) _
              (push_refused x.c.dispatcher time p x.c.dispatcher.nq_list offered),
          refl,
          refl,
        )
        d.shows refl

  pub Sim-command_runs :
      (s : Shared) (garbage : ℤ) (cmd : Command)
      → Sim match rand start s (commands garbage cmd)
      → Sim match rand start
          (record s {
            system = with_queues s.system (run_on match garbage cmd s.system.dispatcher.nq_list).1;
          })
          leaves
  Sim-command_runs s garbage cmd x =
      commits match rand start s (commands garbage cmd) leaves x
        (with_queues x.c (run_on match garbage cmd x.c.dispatcher.nq_list).1)
        (with_queues s.system (run_on match garbage cmd s.system.dispatcher.nq_list).1) [] s.sent
        refl refl (by_command garbage cmd, refl, refl)
        (ap (λ z. with_queues z (run_on match garbage cmd z.dispatcher.nq_list).1) x.during)
        (sym (append-nil s.sent))
