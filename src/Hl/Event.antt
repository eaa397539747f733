-- ===== src/Hl/Event.antt =====
-- `event` of src/hl/concurrency.h, over the calls of Windows, and how the two events of
-- `queue_dispatcher` in src/nqueue.h behave: `should_stop`, which stays set, and `new_packet`, which a
-- wait takes.
mod Tests
use virtual_gw.Common.{
  ℕ, zero, suc, ◌≡◌, refl, ◌∙◌, Bool, true, false, Option, none, some, List, [], ◌∷◌, ◌==◌,
  if◌then◌else◌, length, replicate,
}
use virtual_gw.Common.Text.{Text}
use virtual_gw.Hl.Thread.{wait_object_0}

-- The calls: `CreateEvent` with its manual reset, its initial state and its name, and the others on a
-- handle.
pub record Events (W : Type 0) : Type 0 where
  pub create_event : W → Bool → Bool → Option Text → ℕ × W
  pub wait_for_single_object : W → ℕ → ℕ → ℕ × W
  pub set_event : W → ℕ → W
  pub reset_event : W → ℕ → W
  pub pulse_event : W → ℕ → W
  pub close_handle : W → ℕ → W

pub record Event : Type 0 where
  pub name : Text
  pub handle : ℕ

module _ {W : Type 0} (os : Events W) where
  -- The constructor.
  unfoldable pub new_event : Bool → Bool → Text → W → Event × W
  new_event initial_state manual_reset name w =
      let c_str = if length name == 0 then none else some name in
      let made = os.create_event w manual_reset initial_state c_str in
      (record { name = name; handle = made.0 }, made.1)

  abbrev pub wait_for_event : ℕ → Event → W → ℕ × W
  wait_for_event milliseconds e w = os.wait_for_single_object w e.handle milliseconds

  unfoldable pub is_signaled : ℕ → Event → W → Bool × W
  is_signaled milliseconds e w =
      let waited = wait_for_event milliseconds e w in (waited.0 == wait_object_0, waited.1)

  -- `Set`, `Reset`, `Pulse` and the destructor.
  abbrev pub set_it : Event → W → W
  set_it e w = os.set_event w e.handle

  abbrev pub reset : Event → W → W
  reset e w = os.reset_event w e.handle

  abbrev pub pulse : Event → W → W
  pulse e w = os.pulse_event w e.handle

  abbrev pub destroy : Event → W → W
  destroy e w = os.close_handle w e.handle

  -- What Windows says of an event: whether it is signaled and whether it is reset by hand, and what the
  -- calls do to these. A wait that finds it signaled gives `WAIT_OBJECT_0` and resets it, if it is not
  -- reset by hand; a wait of 0 milliseconds that does not gives another value and leaves it.
  pub record Documented : Type 0 where
    pub signaled : W → ℕ → Bool
    pub by_hand : W → ℕ → Bool
    pub made_signaled :
        (w : W) (manual initial : Bool) (name : Option Text)
        → signaled
            (os.create_event w manual initial name).1
            (os.create_event w manual initial name).0
          ≡ initial
    pub made_by_hand :
        (w : W) (manual initial : Bool) (name : Option Text)
        → by_hand
            (os.create_event w manual initial name).1
            (os.create_event w manual initial name).0
          ≡ manual
    pub set_signaled : (w : W) (h : ℕ) → signaled (os.set_event w h) h ≡ true
    pub set_by_hand : (w : W) (h : ℕ) → by_hand (os.set_event w h) h ≡ by_hand w h
    pub found :
        (w : W) (h ms : ℕ)
        → signaled w h ≡ true
        → ((os.wait_for_single_object w h ms).0 == wait_object_0) ≡ true
    pub missed :
        (w : W) (h : ℕ)
        → signaled w h ≡ false
        → ((os.wait_for_single_object w h 0).0 == wait_object_0) ≡ false
    pub found_signaled :
        (w : W) (h ms : ℕ)
        → signaled w h ≡ true
        → signaled (os.wait_for_single_object w h ms).1 h ≡ by_hand w h
    pub missed_signaled :
        (w : W) (h : ℕ)
        → signaled w h ≡ false
        → signaled (os.wait_for_single_object w h 0).1 h ≡ false
    pub wait_by_hand :
        (w : W) (h ms : ℕ) → by_hand (os.wait_for_single_object w h ms).1 h ≡ by_hand w h

  -- `isSignaled(0)` again and again.
  unfoldable pub polls : ℕ → Event → W → List Bool
  polls zero e w = []
  polls (suc k) e w = (is_signaled 0 e w).0 ∷ polls k e (is_signaled 0 e w).1

  module _ (doc : Documented) where
    polls-by_hand :
        (k : ℕ) (e : Event) (w : W)
        → doc.signaled w e.handle ≡ true
        → doc.by_hand w e.handle ≡ true
        → polls k e w ≡ replicate k true
    unfolding polls is_signaled
    polls-by_hand zero e w s b = refl
    polls-by_hand (suc k) e w s b =
        rw
          (
            doc.found w e.handle 0 s,
            polls-by_hand k e (is_signaled 0 e w).1 (doc.found_signaled w e.handle 0 s ∙ b)
                (doc.wait_by_hand w e.handle 0 ∙ b),
          )
          refl

    polls-unset :
        (k : ℕ) (e : Event) (w : W)
        → doc.signaled w e.handle ≡ false
        → polls k e w ≡ replicate k false
    unfolding polls is_signaled
    polls-unset zero e w s = refl
    polls-unset (suc k) e w s =
        rw
          (
            doc.missed w e.handle s,
            polls-unset k e (is_signaled 0 e w).1 (doc.missed_signaled w e.handle s),
          )
          refl

    -- `should_stop`: made by the default arguments and set, it is found set by every test.
    pub stays_set :
        (k : ℕ) (name : Text) (w : W)
        → let made = new_event false true name w in
          polls k made.0 (set_it made.0 made.1) ≡ replicate k true
    unfolding new_event
    stays_set k name w =
        let made = new_event false true name w in
        polls-by_hand k made.0 (set_it made.0 made.1) (doc.set_signaled made.1 made.0.handle)
          (doc.set_by_hand made.1 made.0.handle ∙ doc.made_by_hand w true false _)

    -- `new_packet`: made to be reset by a wait, and set, it is found set by one test and by no more.
    pub taken_once :
        (k : ℕ) (name : Text) (w : W)
        → let made = new_event false false name w in
          polls (suc k) made.0 (set_it made.0 made.1) ≡ true ∷ replicate k false
    unfolding new_event polls is_signaled
    taken_once k name w =
        let made = new_event false false name w in
        let h = made.0.handle in
        let now = set_it made.0 made.1 in
        let by_wait : doc.by_hand now h ≡ false =
          doc.set_by_hand made.1 h ∙ doc.made_by_hand w false false _ in
        rw
          (
            doc.found now h 0 (doc.set_signaled made.1 h),
            polls-unset k made.0 (is_signaled 0 made.0 now).1
                (doc.found_signaled now h 0 (doc.set_signaled made.1 h) ∙ by_wait),
          )
          refl
