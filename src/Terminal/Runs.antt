-- ===== src/Terminal/Runs.antt =====
-- What holds of the terminal's state after any interleaving of the tasks' calls.
use presence_platform.Prelude.{
  ◌<◌, ◌≡◌, ◌≢◌, ◌⊎◌, inl, ◌↔◌, refl, Bool, true, false, List, [], ◌∷◌, arith,
}
use presence_platform.Terminal.{
  TerminalStatus, running, provision, ready, power_on, begin_self_test, self_test_done,
  set_sensor_ok, note_sensor_comm_error, note_sensor_replied, note_sensor_probe, set_buffer_opened,
  note_buffer_write_failed, set_provisioned, state,
}

-- A call of `setup()`, the scan task or the net task.
pub data Call : Type 0 where
  self_test_begins self_test_ends comm_error sensor_replied buffer_write_failed : Call
  sensor_found sensor_probed buffer_opened secret_stored : Bool → Call

unfoldable pub perform : Call → TerminalStatus → TerminalStatus
unfolding begin_self_test self_test_done note_sensor_comm_error note_sensor_replied
    note_buffer_write_failed set_sensor_ok note_sensor_probe set_buffer_opened set_provisioned
perform self_test_begins s = begin_self_test s
perform self_test_ends s = self_test_done s
perform comm_error s = (note_sensor_comm_error s).1
perform sensor_replied s = note_sensor_replied s
perform buffer_write_failed s = note_buffer_write_failed s
perform (sensor_found ok) s = set_sensor_ok ok s
perform (sensor_probed ok) s = note_sensor_probe ok s
perform (buffer_opened ok) s = set_buffer_opened ok s
perform (secret_stored p) s = set_provisioned p s

unfoldable pub run : List Call → TerminalStatus → TerminalStatus
run [] s = s
run (c ∷ cs) s = run cs (perform c s)

-- The buffer is never usable once a write has failed; the sensor's counters keep their ranges.
pub record IsSound (s : TerminalStatus) : Type 0 where
  pub latched : (s.buffer_failed ≡ false) ⊎ (s.buffer_ok ≡ false)
  pub errors_below : s.comm_errors < 5
  pub probes_below : s.failed_probes < 32

power_on-IsSound : IsSound power_on
power_on-IsSound = record {
  latched = inl refl;
  errors_below = omega arith;
  probes_below = omega arith;
}

pub perform-IsSound : (c : Call) {s : TerminalStatus} → IsSound s → IsSound (perform c s)
unfolding perform
perform-IsSound comm_error v = ground arith
perform-IsSound _ v = ground arith

pub run-IsSound : (cs : List Call) {s : TerminalStatus} → IsSound s → IsSound (run cs s)
unfolding run
run-IsSound [] v = v
run-IsSound (c ∷ cs) v = run-IsSound cs (perform-IsSound c v)

perform_keeps_failure :
    (c : Call) (s : TerminalStatus) → s.buffer_failed ≡ true → (perform c s).buffer_failed ≡ true
unfolding perform
perform_keeps_failure comm_error s h = ground arith
perform_keeps_failure _ s h = ground arith

run_keeps_failure :
    (cs : List Call) (s : TerminalStatus) → s.buffer_failed ≡ true → (run cs s).buffer_failed ≡ true
unfolding run
run_keeps_failure [] s h = h
run_keeps_failure (c ∷ cs) s h = run_keeps_failure cs (perform c s) (perform_keeps_failure c s h)

not_serving : (s : TerminalStatus) → s.buffer_ok ≡ false → (state s ≢ ready) × (state s ≢ provision)
unfolding state
not_serving s h = ground arith

-- Once a buffer write has failed, at any point after power-on, no sequence of calls brings the
-- terminal to READY or PROVISION.
pub buffer_fault_latches :
    (before after : List Call)
    → let s = run after (perform buffer_write_failed (run before power_on)) in
      (state s ≢ ready) × (state s ≢ provision)
unfolding perform
buffer_fault_latches before after =
    let s = perform buffer_write_failed (run before power_on) in
    let kept = run_keeps_failure after s refl in
    let sound =
      run-IsSound after
        (perform-IsSound buffer_write_failed (run-IsSound before power_on-IsSound)) in
    not_serving (run after s) (ground (arith, kept, sound.latched))

-- The state is READY exactly if the self-test is over, the sensor answers, the buffer is usable
-- and the device secret is stored.
pub ready_iff :
    (s : TerminalStatus)
    → (state s ≡ ready)
      ↔ ((s.phase ≡ running) × (s.sensor_ok ≡ true) × (s.buffer_ok ≡ true) × (s.provisioned ≡ true))
unfolding state
ready_iff s = (λ h. ground arith, λ h. ground arith)
