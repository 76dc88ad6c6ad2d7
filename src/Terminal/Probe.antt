-- ===== src/Terminal/Probe.antt =====
-- The sensor: when it counts as lost, and how the delay between probes grows.
use presence_platform.Prelude.{
  ℕ, zero, suc, ◌+◌, ◌*◌, ◌%◌, ◌^◌, ◌≤◌, ◌<◌, ◌≡◌, true, false, arith, min, ltb, leb, if◌then◌else◌,
  ◌==◌, ◌&&◌,
}
use native.Mathlib.Decide.{dec_lt}
use native.Mathlib.Nat.{pow-suc}
use presence_platform.Terminal.{
  TerminalStatus, note_sensor_comm_error, note_sensor_probe, sensor_probe_delay_ms,
}

-- `n` packet errors with no reply between them.
unfoldable pub comm_errors : ℕ → TerminalStatus → TerminalStatus
comm_errors zero s = s
comm_errors (suc n) s = comm_errors n (note_sensor_comm_error s).1

-- `n` failed probes in a row.
unfoldable pub probe_fails : ℕ → TerminalStatus → TerminalStatus
probe_fails zero s = s
probe_fails (suc n) s = probe_fails n (note_sensor_probe false s)

errors_of_lost :
    (n : ℕ) (s : TerminalStatus) → s.sensor_ok ≡ false → (comm_errors n s).sensor_ok ≡ false
unfolding comm_errors note_sensor_comm_error
errors_of_lost zero s h = h
errors_of_lost (suc n) s h = errors_of_lost n (note_sensor_comm_error s).1 (ground arith)

errors_counted :
    (n : ℕ) (s : TerminalStatus)
    → s.sensor_ok ≡ true
    → s.comm_errors < 5
    → (comm_errors n s).sensor_ok ≡ ltb (s.comm_errors + n) 5
unfolding comm_errors note_sensor_comm_error
errors_counted zero s h k = ground arith
errors_counted (suc n) s h k = ground (
  arith,
  errors_counted n (note_sensor_comm_error s).1,
  errors_of_lost n (note_sensor_comm_error s).1,
)

errors_below :
    (n : ℕ) (s : TerminalStatus)
    → s.sensor_ok ≡ true
    → s.comm_errors + n < 5
    → ((comm_errors n s).comm_errors ≡ s.comm_errors + n) × ((comm_errors n s).sensor_ok ≡ true)
unfolding comm_errors note_sensor_comm_error
errors_below zero s h k = (omega arith, h)
errors_below (suc n) s h k = ground (arith, errors_below n (note_sensor_comm_error s).1)

reports_loss :
    (s : TerminalStatus)
    → s.comm_errors < 5
    → (note_sensor_comm_error s).0 ≡ (s.sensor_ok && s.comm_errors == 4)
unfolding note_sensor_comm_error
reports_loss s h = ground arith

errors_range : (n : ℕ) (s : TerminalStatus) → s.comm_errors < 5 → (comm_errors n s).comm_errors < 5
unfolding comm_errors note_sensor_comm_error
errors_range zero s h = h
errors_range (suc n) s h = ground (arith, errors_range n (note_sensor_comm_error s).1)

-- After `n` packet errors in a row on a working sensor with no error counted, the sensor counts
-- as working exactly if `n` is below five, and the next error reports the loss exactly if it is
-- the fifth.
pub lost_after_five :
    (n : ℕ) (s : TerminalStatus)
    → s.sensor_ok ≡ true
    → s.comm_errors ≡ 0
    → ((comm_errors n s).sensor_ok ≡ ltb n 5)
      × ((note_sensor_comm_error (comm_errors n s)).0 ≡ (n == 4))
lost_after_five n s h k = (
  ground (arith, errors_counted n s),
  ground (
    arith,
    errors_counted n s,
    errors_below n s,
    reports_loss (comm_errors n s),
    errors_range n s,
  ),
)

probes_counted :
    (n : ℕ) (s : TerminalStatus)
    → s.failed_probes ≤ 31
    → (probe_fails n s).failed_probes ≡ min (s.failed_probes + n) 31
unfolding probe_fails note_sensor_probe
probes_counted zero s h = omega arith
probes_counted (suc n) s h = ground (arith, probes_counted n (note_sensor_probe false s))

two_pow_ge : (n : ℕ) → 5 ≤ n → 32 ≤ 2 ^ n
two_pow_ge zero h = absurd (omega arith)
two_pow_ge (suc n) h = elim (dec_lt n 5) [
  | yes p ↦ rw (← five n (omega arith)) (omega arith)
  | no p ↦ omega (arith, pow-suc 2 n, two_pow_ge n)
]
  where
    five : (k : ℕ) → suc k ≡ 5 → 4 ≡ k
    five k e = omega arith

delay_at :
    (n k : ℕ)
    → k ≡ min n 31
    → (if leb 5 k
        then 60000
        else if ltb 60000 ((2000 * 2 ^ k) % 2 ^ 32)
        then 60000
        else (2000 * 2 ^ k) % 2 ^ 32)
      ≡ min (2000 * 2 ^ n) 60000
delay_at zero k e = rw e
delay_at (suc zero) k e = rw e
delay_at (suc (suc zero)) k e = rw e
delay_at (suc (suc (suc zero))) k e = rw e
delay_at (suc (suc (suc (suc zero)))) k e = rw e
delay_at (suc (suc (suc (suc (suc n))))) k e =
    ground (arith, two_pow_ge (suc (suc (suc (suc (suc n))))))

-- After `n` failed probes from a count of 0 the delay is 2 s doubled `n` times, and 60 s at
-- most.
pub probe_delay :
    (n : ℕ) (s : TerminalStatus)
    → s.failed_probes ≡ 0
    → sensor_probe_delay_ms (probe_fails n s) ≡ min (2000 * 2 ^ n) 60000
unfolding sensor_probe_delay_ms
probe_delay n s h = delay_at n (probe_fails n s).failed_probes (omega (arith, probes_counted n s))
