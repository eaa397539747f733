-- ===== src/Dispatcher/Atomic/Loops.antt =====
-- The loops over the queues of `queue_dispatcher` in src/nqueue.h, in two parts.
use virtual_gw.Common.{
  ℕ, suc, ◌≡◌, refl, sym, ap, ◌∙◌, true, false, Option, none, some, List, [], ◌∷◌, ◌++◌, arith,
  >>=-eq-some, length, get_elem?, set,
}
use virtual_gw.Common.Int.{ℤ}
use virtual_gw.Common.Text.{Text}
use mathlib.Core.List.{append_assoc, append-nil}
use virtual_gw.Packets.{Npacket, new_npacket, show_stat}
use virtual_gw.Nqueue.{Nqueue, packet_in, packet_out}
use virtual_gw.Nqueue.Mass.{gone}
use virtual_gw.Dispatcher.{QueueDispatcher, push, offer, pump, show_stats}
use virtual_gw.Dispatcher.Table.{NqList}
use virtual_gw.Dispatcher.Laws.{refuses, AllRefuse}

-- What stands behind the first part.
pub behind-some :
    {A : Type 0} (a b : List A) (x : A)
    → get_elem? (a ++ b) (length a) ≡ some x
    → (b' : List A) × (b ≡ x ∷ b')
behind-some [] [] x h = absurd (ground arith)
behind-some [] (y ∷ b) x h = (b, ground arith)
behind-some (z ∷ a) b x h = behind-some a b x h

pub behind-none : {A : Type 0} (a b : List A) → get_elem? (a ++ b) (length a) ≡ none → b ≡ []
behind-none [] [] h = refl
behind-none [] (y ∷ b) h = absurd (ground arith)
behind-none (z ∷ a) b h = behind-none a b h

set_at : {A : Type 0} (a b : List A) (x y : A) → set (a ++ x ∷ b) (length a) y ≡ (a ++ y ∷ []) ++ b
set_at [] b x y = refl
set_at (z ∷ a) b x y = ap (λ r. z ∷ r) (set_at a b x y)

-- A write to the first of the second part.
pub set-behind :
    {A : Type 0} (a b b' : List A) (i : ℕ) (x y : A)
    → length a ≡ i
    → b ≡ x ∷ b'
    → set (a ++ b) i y ≡ (a ++ y ∷ []) ++ b'
set-behind a b b' i x y h e = rw (← h, e) (set_at a b' x y)

pub one_moved :
    {A : Type 0} (m a b b' : List A) (x : A) → m ≡ a ++ b → b ≡ x ∷ b' → m ≡ (a ++ x ∷ []) ++ b'
one_moved m a b b' x h e = h ∙ ap (λ r. a ++ r) e ∙ sym (append_assoc a (x ∷ []) b')

pub length-snoc :
    {A : Type 0} (a : List A) (x : A) (i : ℕ) → length a ≡ i → length (a ++ x ∷ []) ≡ suc i
length-snoc [] x i h = ap suc h
length-snoc (y ∷ a) x i h = ap suc (length-snoc a x (length a) refl) ∙ ap suc h

-- One queue in front.
pump_cons :
    (rand : ℕ → ℕ) (used used' used'' : ℕ) (k : Text) (n n' : Nqueue) (a a' : NqList) (time : ℤ)
    (out : List (List ℕ)) (o : Option (List ℕ))
    → packet_out rand used n time ≡ some (o, n', used')
    → pump rand used' a time ≡ some (out, a', used'')
    → pump rand used ((k, n) ∷ a) time ≡ some (gone o ++ out, (k, n') ∷ a', used'')
unfolding pump
pump_cons rand used used' used'' k n n' a a' time out none e h = rw (e, h) refl
pump_cons rand used used' used'' k n n' a a' time out (some b) e h = rw (e, h) refl

gone_front :
    (o : Option (List ℕ)) (r : List (List ℕ))
    → gone o ++ r ≡ (elim o as (λ x. List (List ℕ)) [ none ↦ r | some b ↦ b ∷ r ])
gone_front none r = refl
gone_front (some b) r = refl

-- One queue more.
pub pump_more :
    (rand : ℕ → ℕ) (used used' used'' : ℕ) (a a' : NqList) (time : ℤ) (out : List (List ℕ))
    (k : Text) (n n' : Nqueue) (o : Option (List ℕ))
    → pump rand used a time ≡ some (out, a', used')
    → packet_out rand used' n time ≡ some (o, n', used'')
    → pump rand used (a ++ (k, n) ∷ []) time ≡ some (out ++ gone o, a' ++ (k, n') ∷ [], used'')
unfolding pump
pump_more rand used used' used'' [] a' time out k n n' o e h =
    let e' : (out ≡ []) × (a' ≡ []) × (used' ≡ used) = ground arith in
    rw (e'.0, e'.1)
      (pump_cons rand used used'' used'' k n n' [] [] time [] o (rw e'.2 at h) refl
        ∙ ap (λ x. some (x, (k, n') ∷ [], used'')) (append-nil (gone o)))
pump_more rand used used' used'' ((j, m) ∷ a) a' time out k n n' o e h =
    let (one, e1, e2) = >>=-eq-some (packet_out rand used m time) _ e in
    let (rest, e3, e4) = >>=-eq-some (pump rand one.2 a time) _ e2 in
    let front = gone_front one.0 rest.0 in
    let e' : (out ≡ gone one.0 ++ rest.0) × (a' ≡ (j, one.1) ∷ rest.1) × (used' ≡ rest.2) =
      ground arith in
    let more = pump_more rand one.2 rest.2 used'' a rest.1 time rest.0 k n n' o e3 (rw e'.2 at h) in
    rw (e'.0, e'.1)
      (pump_cons rand used one.2 used'' j m one.1 (a ++ (k, n) ∷ []) (rest.1 ++ (k, n') ∷ []) time
          (rest.0 ++ gone o) one.0 e1 more
        ∙ ap (λ x. some (x, (j, one.1) ∷ rest.1 ++ (k, n') ∷ [], used''))
            (sym (append_assoc (gone one.0) rest.0 (gone o))))

pub length-pump :
    (rand : ℕ → ℕ) (used used' : ℕ) (a a' : NqList) (time : ℤ) (out : List (List ℕ))
    → pump rand used a time ≡ some (out, a', used')
    → length a' ≡ length a
unfolding pump
length-pump rand used used' [] a' time out e = ground arith
length-pump rand used used' ((j, m) ∷ a) a' time out e =
    let (one, e1, e2) = >>=-eq-some (packet_out rand used m time) _ e in
    let (rest, e3, e4) = >>=-eq-some (pump rand one.2 a time) _ e2 in
    ground (arith, length-pump rand one.2 rest.2 a rest.1 time rest.0 e3)

pub show_stats_more :
    (a : NqList) (time : ℤ) (k : Text) (n : Nqueue)
    → (show_stats (a ++ (k, n) ∷ []) time).1
      ≡ (show_stats a time).1 ++ (k, record n { packets = (show_stat n.packets time).1 }) ∷ []
unfolding show_stats
show_stats_more [] time k n = refl
show_stats_more ((j, m) ∷ a) time k n =
    ap (λ r. (j, record m { packets = (show_stat m.packets time).1 }) ∷ r)
      (show_stats_more a time k n)

pub length-show_stats : (a : NqList) (time : ℤ) → length (show_stats a time).1 ≡ length a
unfolding show_stats
length-show_stats [] time = refl
length-show_stats ((j, m) ∷ a) time = ap suc (length-show_stats a time)

pub refuse_more :
    (a : NqList) (p : Npacket) (k : Text) (n : Nqueue)
    → AllRefuse a p
    → packet_in n p ≡ some (false, n)
    → AllRefuse (a ++ (k, n) ∷ []) p
refuse_more [] p k n r h = (refuses n n p h, tt)
refuse_more ((j, m) ∷ a) p k n (r, rs) h = (r, refuse_more a p k n rs h)

pub offer_refused : (a : NqList) (p : Npacket) → AllRefuse a p → offer a p ≡ some (false, a)
unfolding offer packet_in
offer_refused [] p r = refl
offer_refused ((j, m) ∷ a) p (r, rs) = rw (r, offer_refused a p rs) refl

pub offer_behind :
    (a b : NqList) (p : Npacket) (k : Text) (n n' : Nqueue)
    → AllRefuse a p
    → packet_in n p ≡ some (true, n')
    → offer (a ++ (k, n) ∷ b) p ≡ some (true, (a ++ (k, n') ∷ []) ++ b)
unfolding offer packet_in
offer_behind [] b p k n n' r h = rw h refl
offer_behind ((j, m) ∷ a) b p k n n' (r, rs) h = rw (r, offer_behind a b p k n n' rs h) refl

pub push_taken :
    (d : QueueDispatcher) (time : ℤ) (p : List ℕ) (m : NqList)
    → offer d.nq_list (new_npacket d.uid_base time p).1 ≡ some (true, m)
    → push d time p
      ≡ some (
        [],
        record d { nq_list = m; uid_base = (new_npacket d.uid_base time p).0; new_packet = true },
      )
unfolding push
push_taken d time p m e = rw e refl

pub push_refused :
    (d : QueueDispatcher) (time : ℤ) (p : List ℕ) (m : NqList)
    → offer d.nq_list (new_npacket d.uid_base time p).1 ≡ some (false, m)
    → push d time p
      ≡ some (p ∷ [], record d { nq_list = m; uid_base = (new_npacket d.uid_base time p).0 })
unfolding push
push_refused d time p m e = rw e refl
