-- ===== src/Hl/Thread.antt =====
-- src/hl/thread_object.h, src/hl/thread_object.cpp: a thread of Windows, over its calls.
-- `CreateThread` gives the handle, 0 where it fails, and the thread's number.
use virtual_gw.Common.{
  ℕ, ◌≡◌, refl, inl, inr, Bool, true, not, Option, none, some, ◌==◌, if◌then◌else◌, Bool-cases,
}

pub record Threads (W : Type 0) : Type 0 where
  pub create_thread : W → (ℕ × ℕ) × W
  pub current_thread_id : W → ℕ
  pub wait_for_single_object : W → ℕ → ℕ → ℕ × W
  pub terminate_thread : W → ℕ → ℕ × W
  pub close_handle : W → ℕ → W

-- `hThread`, 0 for NULL, and `ThreadID`.
pub record ThreadObject : Type 0 where
  pub thread_id : ℕ
  pub h_thread : ℕ

abbrev pub new_thread_object : ThreadObject
new_thread_object = record { thread_id = 0; h_thread = 0 }

-- `WAIT_OBJECT_0`
abbrev pub wait_object_0 : ℕ
wait_object_0 = 0

module _ {W : Type 0} (os : Threads W) where
  unfoldable pub start : ThreadObject → W → Bool × ThreadObject × W
  start t w =
      let made = os.create_thread w in
      if t.h_thread == 0
      then (not (made.0.0 == 0), record { thread_id = made.0.1; h_thread = made.0.0 }, made.1)
      else (true, t, w)

  unfoldable pub is_current : ThreadObject → W → Bool
  is_current t w = t.thread_id == os.current_thread_id w

  unfoldable pub wait_for_exit : ℕ → ThreadObject → W → W
  wait_for_exit timeout t w = (os.wait_for_single_object w t.h_thread timeout).1

  -- `stop` where the thread has a handle.
  unfoldable pub stop_running : ℕ → ThreadObject → W → ℕ × ThreadObject × W
  stop_running timeout t w =
      let waited = os.wait_for_single_object w t.h_thread timeout in
      let killed = os.terminate_thread waited.1 t.h_thread in
      let stopped = record t { h_thread = 0 } in
      if not (waited.0 == wait_object_0)
      then (killed.0, stopped, os.close_handle killed.1 t.h_thread)
      else (0, stopped, os.close_handle waited.1 t.h_thread)

  -- `stop`; `none` where it is called on the thread itself, which `ExitThread` ends.
  unfoldable pub stop : ℕ → ThreadObject → W → Option (ℕ × ThreadObject × W)
  stop timeout t w =
      if is_current t w
      then none
      else if not (t.h_thread == 0)
      then some (stop_running timeout t w)
      else some (0, t, w)

  -- Behind a `stop` that returns there is no handle.
  stopped_running :
      (timeout : ℕ) (t : ThreadObject) (w : W) → (stop_running timeout t w).1.h_thread ≡ 0
  unfolding stop_running
  stopped_running timeout t w =
      elim (Bool-cases
        (not ((os.wait_for_single_object w t.h_thread timeout).0 == wait_object_0))) [
          | inl b ↦ rw b refl
          | inr b ↦ rw b refl
        ]
