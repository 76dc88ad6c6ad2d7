-- ===== src/Boot.antt =====
-- firmware/src/main.cpp: `setup`, as far as it decides something, and `loop`: `pollWifiReset` and
-- `serialCommands`.
pub mod Starts
use presence_platform.Prelude.{
  ℕ, Bool, true, false, not, ◌&&◌, Option, none, some, Bytes, codes, if◌then◌else◌,
}
use presence_platform.Storage.{Storage}
use presence_platform.Storage.LittleFs.{
  FileSystem, Entry, LittleFs, little_fs_storage, begin_storage,
}
use presence_platform.Ring.{Ring, begin}
use presence_platform.Terminal.{
  TerminalStatus, power_on, begin_self_test, set_sensor_ok, set_buffer_opened, set_provisioned,
  self_test_done,
}
use presence_platform.Clock.{Rtc, Clock, start_clock}
use presence_platform.Scan.Sequence.{Counter, restore_seq}
use presence_platform.Ota.Guard
use presence_platform.Ota.Guard.{Answers, OtaGuard}
use presence_platform.Setup.Hold.{HoldTrigger, update}
use presence_platform.Setup.Fields.{WifiCredentials, load_usable_credentials}
use presence_platform.Setup.Access.{SetupCommand, parse_setup_command, setup_id_line}
use presence_platform.Device.{
  DeviceNvs, NvsAnswers, Device, erase_token, have_setup_key, handle_setup_key,
}

-- What `setup` finds: `verifyPassword`, `g_rtc.begin()`, `g_rtc.lostPower()`, the entries of NVS.
pub record BootInput : Type 0 where
  pub password_ok : Bool
  pub rtc_begun : Bool
  pub rtc_lost_power : Bool
  pub saved_offset : Option ℕ
  pub credentials : Option WifiCredentials
  -- `kFirmwareVersion`, the image's state, `millis()`, and what the guard's calls answer
  pub firmware_version : Bytes
  pub pending_verify : Bool
  pub now_ms : ℕ
  pub answers : Answers

-- The secret in NVS decides; a token that is left beside it is erased.
unfoldable pub load_secret : NvsAnswers → Bytes → DeviceNvs → TerminalStatus → Device
load_secret a zeros nvs status = elim nvs.device_secret [
  | none ↦ record { nvs = nvs; secret = zeros; status = set_provisioned false status }
  | some secret ↦ record {
    nvs = erase_token a nvs;
    secret = a.reads secret;
    status = set_provisioned true status;
  }
]

module _ (F : FileSystem) (N : Entry) (R : Rtc) where
  -- What the tasks start with.
  pub record Started : Type 0 where
    pub store : LittleFs F N
    pub ring : Bool × Ring (little_fs_storage F N store.opened store.capacity)
    pub clock : Clock R
    pub counter : Counter
    pub guard : OtaGuard
    pub device : Device
    pub wifi_portal : Bool

  unfoldable pub open_ring :
      (s : LittleFs F N) → Bool × Ring (little_fs_storage F N s.opened s.capacity)
  open_ring s = begin (little_fs_storage F N s.opened s.capacity) (s.disk, s.nvs)

  -- `g_storage->begin() && g_buffer->begin()`
  unfoldable pub buffer_opened : Bool → LittleFs F N → Bool
  buffer_opened begun s = begun && (open_ring s).0

  unfoldable pub setup :
      NvsAnswers
      → BootInput
      → Bytes
      → R.Chip
      → LittleFs F N
      → Counter
      → OtaGuard
      → DeviceNvs
      → Started
  setup a i zeros chip files counter guard nvs =
      let (begun, store) = begin_storage F N files in
      let tested = set_sensor_ok i.password_ok (begin_self_test power_on) in
      let status = set_buffer_opened (buffer_opened begun store) tested in
      let device = load_secret a zeros nvs status in
      record {
        store = store;
        ring = open_ring store;
        clock = start_clock R i.rtc_begun i.rtc_lost_power chip i.saved_offset;
        counter = restore_seq counter;
        guard = Guard.begin i.answers i.firmware_version i.pending_verify i.now_ms guard;
        device = record device { status = self_test_done device.status };
        wifi_portal = not (load_usable_credentials i.credentials).0;
      }

-- `pollWifiReset`: whether it restarts, the trigger, and the credentials; `erased` is what the erase
-- answers.
unfoldable pub poll_wifi_reset :
    Bool
    → Bool
    → ℕ
    → HoldTrigger
    → Option WifiCredentials
    → Bool × HoldTrigger × Option WifiCredentials
poll_wifi_reset erased held now_ms trigger credentials =
    let (fired, after) = update held now_ms trigger in
    if not fired
    then (false, after, credentials)
    else if erased
    then (true, after, none)
    else (false, after, credentials)

-- What `serialCommands` writes; `other_line` goes to the bench commands, in a bench build.
pub data SerialAnswer : Type 0 where
  id_line : Bytes → SerialAnswer
  key_stored key_refused unknown_command other_line : SerialAnswer

unfoldable pub serial_command : NvsAnswers → Bytes → Bytes → DeviceNvs → SerialAnswer × DeviceNvs
serial_command a mac line nvs =
    let (command, key) = parse_setup_command line in
    let (stored, after) = handle_setup_key a key nvs in
    elim command [
      | SetupCommand.id ↦ (id_line (setup_id_line mac (have_setup_key nvs)), nvs)
      | SetupCommand.set_key ↦ (if stored then key_stored else key_refused, after)
      | SetupCommand.malformed ↦ (unknown_command, nvs)
      | SetupCommand.no_command ↦ (other_line, nvs)
    ]
