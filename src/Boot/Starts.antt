-- ===== src/Boot/Starts.antt =====
-- firmware/src/main.cpp: the state in which `setup` leaves the terminal.
use presence_platform.Prelude.{
  ◌≡◌, Bool, not, ◌&&◌, Option, none, some, Bytes, if◌then◌else◌, arith,
}
use presence_platform.Storage.LittleFs.{FileSystem, Entry, LittleFs, begin_storage}
use presence_platform.Terminal.{
  TerminalState, fault, provision, ready, state_in, state, begin_self_test, set_sensor_ok,
  set_buffer_opened, set_provisioned, self_test_done,
}
use presence_platform.Clock.{Rtc}
use presence_platform.Scan.Sequence.{Counter}
use presence_platform.Ota.Guard.{OtaGuard}
use presence_platform.Device.{DeviceNvs, NvsAnswers}
use presence_platform.Boot.{BootInput, buffer_opened, load_secret, setup}

-- The state of a terminal that runs.
unfoldable pub expected_state : Bool → Bool → Option Bytes → TerminalState
expected_state sensor_ok buffer_ok secret =
    if not (sensor_ok && buffer_ok)
    then fault
    else elim secret [ none ↦ provision | some key ↦ ready ]

module _ (F : FileSystem) (N : Entry) (R : Rtc) where
  -- After `setup` the state on the display is the one of the sensor's password, the ring and the
  -- device secret as they were found.
  pub setup_state :
      (a : NvsAnswers) (i : BootInput) (zeros : Bytes) (chip : R.Chip) (files : LittleFs F N)
      (counter : Counter) (guard : OtaGuard) (nvs : DeviceNvs)
      → let (begun, store) = begin_storage F N files in
        let started = setup F N R a i zeros chip files counter guard nvs in
        state started.device.status
        ≡ expected_state i.password_ok (buffer_opened F N R begun store) nvs.device_secret
  unfolding setup load_secret state state_in begin_self_test set_sensor_ok set_buffer_opened
      set_provisioned self_test_done expected_state
  setup_state a i zeros chip files counter guard nvs = ground arith
