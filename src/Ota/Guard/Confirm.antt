-- ===== src/Ota/Guard/Confirm.antt =====
-- Confirmation: an image is confirmed before its version counts, and an unconfirmed one is rolled
-- back once, when its window is over.
use presence_platform.Prelude.{
  ℕ, ◌+◌, ◌≡◌, ◌⊎◌, inl, inr, refl, true, false, not, ◌&&◌, ◌||◌, List, [], ◌∷◌, Bytes, arith, ltb,
  leb, if◌then◌else◌, sub_u32, Bool-cases,
}
use presence_platform.Ota.Guard.{
  OtaGuard, Answers, BootCall, mark_valid, rollback, cancel_confirm_deadline, restart_unconfirmed,
  arm_confirm_deadline, save_state, note_pending, clear_pending, on_healthy, tick,
  on_confirm_deadline, settle, confirmed, call,
}

settle_parts :
    (a : Answers) (g : OtaGuard)
    → let h = settle a g in
      (h.healthy ≡ true)
      × (h.awaiting ≡ g.awaiting)
      × (h.st.floor ≡ (if g.running_ok && ltb g.st.floor g.running then g.running else g.st.floor))
unfolding settle
settle_parts a g = ground arith

confirmed_parts :
    (g : OtaGuard)
    → let h = confirmed (call mark_valid g) in
      (h.awaiting ≡ false) × (h.st ≡ g.st) × (h.running ≡ g.running) × (h.running_ok ≡ g.running_ok)
unfolding confirmed call
confirmed_parts g = ground arith

on_healthy_again : (a : Answers) (g : OtaGuard) → g.healthy ≡ true → on_healthy a g ≡ g
unfolding on_healthy
on_healthy_again a g h = rw h

-- The first heartbeat of a boot, on an image that awaits no confirmation or whose confirmation
-- the bootloader accepts, leaves the image confirmed and the floor at the larger of what it was
-- and this build's version if that parsed; a second heartbeat changes nothing.
pub on_healthy_settles :
    (a : Answers) (g : OtaGuard)
    → g.healthy ≡ false
    → (g.awaiting ≡ false) ⊎ (a.mark_ok ≡ true)
    → let h = on_healthy a g in
      (h.healthy ≡ true)
      × (h.awaiting ≡ false)
      × (h.st.floor ≡ (if g.running_ok && ltb g.st.floor g.running then g.running else g.st.floor))
      × (on_healthy a h ≡ h)
on_healthy_settles a g h k =
    let (good, calm, risen) = first in (good, calm, risen, on_healthy_again a (on_healthy a g) good)
  where
    first :
        let h = on_healthy a g in
        (h.healthy ≡ true)
        × (h.awaiting ≡ false)
        × (h.st.floor
            ≡ (if g.running_ok && ltb g.st.floor g.running then g.running else g.st.floor))
    first =
        unfold on_healthy in
        elim (Bool-cases g.awaiting) [
          | inl w ↦
              ground (arith, settle_parts a (confirmed (call mark_valid g)), confirmed_parts g)
          | inr w ↦ ground (arith, settle_parts a g)
        ]

-- What the tasks call between one boot and the next.
pub data Call : Type 0 where
  notes : Answers → Bytes → Bytes → Call
  clears : Answers → Call
  hears_gateway : Answers → Call
  ticks : Answers → ℕ → Call
  deadline_fires : Call

unfoldable pub perform : Call → OtaGuard → OtaGuard
perform (notes a version sha) g = (note_pending a version sha g).1
perform (clears a) g = clear_pending a g
perform (hears_gateway a) g = on_healthy a g
perform (ticks a now_ms) g = tick a now_ms g
perform deadline_fires g = on_confirm_deadline g

unfoldable pub run : List Call → OtaGuard → OtaGuard
run [] g = g
run (c ∷ cs) g = run cs (perform c g)

-- A call that leaves the image unconfirmed found it so, and moves no floor.
record Holds (g h : OtaGuard) : Type 0 where
  awaited : (h.awaiting ≡ false) ⊎ (g.awaiting ≡ true)
  same_floor : (h.awaiting ≡ false) ⊎ (h.st.floor ≡ g.st.floor)

perform-Holds : (c : Call) (g : OtaGuard) → Holds g (perform c g)
unfolding perform note_pending clear_pending on_healthy settle confirmed call tick
    on_confirm_deadline
perform-Holds (notes a version sha) g = ground arith
perform-Holds (clears a) g = ground arith
perform-Holds (hears_gateway a) g = ground arith
perform-Holds (ticks a now_ms) g = ground arith
perform-Holds deadline_fires g = ground arith

-- If the running image is unconfirmed after a sequence of calls without a boot, it was
-- unconfirmed before them and the floor in memory is what it was.
pub unconfirmed_keeps_floor :
    (cs : List Call) (g : OtaGuard)
    → (run cs g).awaiting ≡ true
    → ((run cs g).st.floor ≡ g.st.floor) × (g.awaiting ≡ true)
unfolding run
unconfirmed_keeps_floor [] g h = (refl, h)
unconfirmed_keeps_floor (c ∷ cs) g h =
    ground (arith, unconfirmed_keeps_floor cs (perform c g), perform-Holds c g)

unfoldable pub rollbacks : List BootCall → ℕ
rollbacks [] = 0
rollbacks (rollback ∷ cs) = 1 + rollbacks cs
rollbacks (mark_valid ∷ cs) = rollbacks cs
rollbacks (cancel_confirm_deadline ∷ cs) = rollbacks cs
rollbacks (restart_unconfirmed ∷ cs) = rollbacks cs
rollbacks (arm_confirm_deadline ms ∷ cs) = rollbacks cs
rollbacks (save_state s ∷ cs) = rollbacks cs

-- `tick` requests a rollback, and asks the bootloader for it once, exactly if the image is
-- unconfirmed, the window since boot is over on the 32-bit clock and no rollback was requested
-- before; the pending mark and the floor stay as they are.
pub tick_deadline :
    (a : Answers) (now_ms : ℕ) (g : OtaGuard)
    → let late = g.awaiting && leb g.timeout_ms (sub_u32 now_ms g.boot_ms) in
      let h = tick a now_ms g in
      (h.rollback_requested ≡ (g.rollback_requested || late))
      × (rollbacks h.trace
          ≡ rollbacks g.trace + (if late && not g.rollback_requested then 1 else 0))
      × ((h.st.has_pending ≡ g.st.has_pending) × (h.st.floor ≡ g.st.floor))
unfolding tick rollbacks
tick_deadline a now_ms g = ground arith

abbrev pub IsCounted : OtaGuard → Type 0
IsCounted g = rollbacks g.trace ≡ (if g.rollback_requested then 1 else 0)

perform-IsCounted : (c : Call) (g : OtaGuard) → IsCounted g → IsCounted (perform c g)
unfolding perform note_pending clear_pending on_healthy settle confirmed call tick
    on_confirm_deadline rollbacks
perform-IsCounted (notes a version sha) g v = ground arith
perform-IsCounted (clears a) g v = ground arith
perform-IsCounted (hears_gateway a) g v = ground arith
perform-IsCounted (ticks a now_ms) g v = ground arith
perform-IsCounted deadline_fires g v = ground arith

-- If the rollbacks asked of the bootloader number one where the guard says that it requested
-- one and none otherwise, the same holds after any sequence of calls without a boot.
pub run-IsCounted : (cs : List Call) (g : OtaGuard) → IsCounted g → IsCounted (run cs g)
unfolding run
run-IsCounted [] g v = v
run-IsCounted (c ∷ cs) g v = run-IsCounted cs (perform c g) (perform-IsCounted c g v)
