-- ===== src/Tests/Health.antt =====
-- The terminal's state on short runs.
use presence_platform.Prelude.{◌≡◌, ◌≢◌, refl, true, false, [], ◌∷◌}
use presence_platform.Terminal.{TerminalStatus, running, ready, provision, power_on, state}
use presence_platform.Terminal.Runs.{
  self_test_begins, self_test_ends, sensor_found, buffer_opened, secret_stored, buffer_write_failed,
  perform, run, buffer_fault_latches,
}

abbrev serving : TerminalStatus
serving = record {
  phase = running;
  sensor_ok = true;
  buffer_ok = true;
  buffer_failed = false;
  provisioned = true;
  comm_errors = 0;
  failed_probes = 0;
}

boots_to_ready :
    state (
      run
        (self_test_begins
          ∷ sensor_found true
          ∷ buffer_opened true
          ∷ secret_stored true
          ∷ self_test_ends
          ∷ [])
        power_on)
    ≡ ready
unfolding state run perform
boots_to_ready = refl

buffer_fault_latches_example :
    let s =
      run
        (buffer_opened true ∷ self_test_ends ∷ [])
        (perform buffer_write_failed (run (self_test_begins ∷ sensor_found true ∷ []) power_on)) in
    (state s ≢ ready) × (state s ≢ provision)
buffer_fault_latches_example =
    buffer_fault_latches (self_test_begins ∷ sensor_found true ∷ [])
      (buffer_opened true ∷ self_test_ends ∷ [])
