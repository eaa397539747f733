-- ===== src/Hl/Event/Tests.antt =====
-- What is said of the events of Windows holds of a small system.
use virtual_gw.Common.{
  ℕ, ◌+◌, ◌≡◌, refl, ◌∙◌, Bool, true, false, [], ◌∷◌, arith, ◌==◌, if◌then◌else◌,
}
use virtual_gw.Common.Text.{codes}
use virtual_gw.Hl.Event.{Events, Documented, new_event, set_it, polls, taken_once}

-- The number of handles, the handles that are signaled, and those that are reset by hand.
record System : Type 0 where
  handles : ℕ
  signaled : ℕ → Bool
  by_hand : ℕ → Bool

abbrev put : (ℕ → Bool) → ℕ → Bool → ℕ → Bool
put f h b i = if i == h then b else f i

abbrev system : Events System
system = record {
  create_event = λ w manual initial name. (
    w.handles,
    record {
      handles = w.handles + 1;
      signaled = put w.signaled w.handles initial;
      by_hand = put w.by_hand w.handles manual;
    },
  );
  wait_for_single_object = λ w h ms. (
    if w.signaled h then 0 else 258,
    record w { signaled = put w.signaled h (if w.signaled h then w.by_hand h else false) },
  );
  set_event = λ w h. record w { signaled = put w.signaled h true };
  reset_event = λ w h. record w { signaled = put w.signaled h false };
  pulse_event = λ w h. record w { signaled = put w.signaled h false };
  close_handle = λ w h. w;
}

put_same : (f : ℕ → Bool) (h : ℕ) (b : Bool) → put f h b h ≡ b
put_same f h b = ground arith

system-Documented : Documented system
system-Documented = record {
  signaled = λ w h. w.signaled h;
  by_hand = λ w h. w.by_hand h;
  made_signaled = λ w manual initial name. put_same w.signaled w.handles initial;
  made_by_hand = λ w manual initial name. put_same w.by_hand w.handles manual;
  set_signaled = λ w h. put_same w.signaled h true;
  set_by_hand = λ w h. refl;
  found = λ w h ms e. rw e refl;
  missed = λ w h e. rw e refl;
  found_signaled =
      λ w h ms e. put_same w.signaled h (if w.signaled h then w.by_hand h else false) ∙ rw e refl;
  missed_signaled =
      λ w h e. put_same w.signaled h (if w.signaled h then w.by_hand h else false) ∙ rw e refl;
  wait_by_hand = λ w h ms. refl;
}

abbrev empty_system : System
empty_system = record { handles = 7; signaled = λ i. false; by_hand = λ i. false }

-- A `new_packet`, set and looked at three times.
three_looks :
    let made = new_event system false false (codes "") empty_system in
    polls system 3 made.0 (set_it system made.0 made.1) ≡ true ∷ false ∷ false ∷ []
three_looks = taken_once system system-Documented 2 (codes "") empty_system
