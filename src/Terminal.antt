-- ===== src/Terminal.antt =====
-- firmware/src/terminal_state.h: class `TerminalStatus`. Each field is an atomic of its own, each
-- method a function from status to status; the tasks interleave whole atomic operations.
pub mod Runs
pub mod Probe
use presence_platform.Prelude.{
  ℕ, ◌+◌, ◌*◌, ◌^◌, ◌%◌, Bool, true, false, not, ◌&&◌, ◌||◌, ltb, leb, if◌then◌else◌,
}

pub data TerminalState : Type 0 where
  boot self_test provision time_sync ready enroll ota fault : TerminalState

pub data Phase : Type 0 where
  booting testing running : Phase

abbrev pub sensor_lost_after : ℕ
sensor_lost_after = 5

abbrev pub sensor_probe_min_ms : ℕ
sensor_probe_min_ms = 2000

abbrev pub sensor_probe_max_ms : ℕ
sensor_probe_max_ms = 60000

pub record TerminalStatus : Type 0 where
  pub phase : Phase
  pub sensor_ok : Bool
  pub buffer_ok : Bool
  pub buffer_failed : Bool
  pub provisioned : Bool
  pub comm_errors : ℕ
  pub failed_probes : ℕ

-- The members' initialisers.
abbrev pub power_on : TerminalStatus
power_on = record {
  phase = booting;
  sensor_ok = false;
  buffer_ok = false;
  buffer_failed = false;
  provisioned = false;
  comm_errors = 0;
  failed_probes = 0;
}

unfoldable pub begin_self_test : TerminalStatus → TerminalStatus
begin_self_test s = record s { phase = testing }

unfoldable pub self_test_done : TerminalStatus → TerminalStatus
self_test_done s = record s { phase = running }

unfoldable pub set_sensor_ok : Bool → TerminalStatus → TerminalStatus
set_sensor_ok ok s = record s {
  sensor_ok = ok;
  comm_errors = 0;
  failed_probes = if ok then 0 else s.failed_probes;
}

-- The result, and the status. `++commErrors_` is on `uint8_t`.
unfoldable pub note_sensor_comm_error : TerminalStatus → Bool × TerminalStatus
note_sensor_comm_error s =
    let n = (s.comm_errors + 1) % 2 ^ 8 in
    if not s.sensor_ok
    then (false, s)
    else if ltb n sensor_lost_after
    then (false, record s { comm_errors = n })
    else (true, record s { sensor_ok = false; comm_errors = 0; failed_probes = 0 })

unfoldable pub note_sensor_replied : TerminalStatus → TerminalStatus
note_sensor_replied s = record s { comm_errors = 0 }

unfoldable pub note_sensor_probe : Bool → TerminalStatus → TerminalStatus
unfolding set_sensor_ok
note_sensor_probe ok s =
    if ok
    then set_sensor_ok true s
    else if ltb s.failed_probes 31
    then record s { failed_probes = s.failed_probes + 1 }
    else s

-- `kSensorProbeMinMs << n` on `uint32_t`.
unfoldable pub sensor_probe_delay_ms : TerminalStatus → ℕ
sensor_probe_delay_ms s =
    let d = (sensor_probe_min_ms * 2 ^ s.failed_probes) % 2 ^ 32 in
    if leb 5 s.failed_probes
    then sensor_probe_max_ms
    else if ltb sensor_probe_max_ms d
    then sensor_probe_max_ms
    else d

unfoldable pub set_buffer_opened : Bool → TerminalStatus → TerminalStatus
set_buffer_opened ok s = record s { buffer_ok = ok && not s.buffer_failed }

unfoldable pub note_buffer_write_failed : TerminalStatus → TerminalStatus
note_buffer_write_failed s = record s { buffer_failed = true; buffer_ok = false }

unfoldable pub set_provisioned : Bool → TerminalStatus → TerminalStatus
set_provisioned p s = record s { provisioned = p }

unfoldable pub state_in : Phase → TerminalStatus → TerminalState
state_in booting s = boot
state_in testing s = self_test
state_in running s =
    if not s.sensor_ok || not s.buffer_ok
    then fault
    else if not s.provisioned
    then provision
    else ready

unfoldable pub state : TerminalStatus → TerminalState
unfolding state_in
state s = state_in s.phase s
