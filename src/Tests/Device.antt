-- ===== src/Tests/Device.antt =====
-- The identity, the clock, the waits and the setup network on small inputs.
use presence_platform.Prelude.{
  ℕ, ◌%◌, ◌≡◌, ◌⊎◌, refl, true, false, Option, none, some, List, [], ◌∷◌, ◌++◌, Bytes, codes,
  replicate, arith, All, u32_mod,
}
use presence_platform.Json.{
  parse_json_int, signed_value, find_value, after_prefix, quoted, after_colon, skip_spaces,
  is_space, read_signed, read_unsigned, json_digit, read_value,
}
use presence_platform.Provision.Token.{ProvisionTokenRecord, provision_token_magic}
use presence_platform.Provision.Reply.{ProvisionResult}
use presence_platform.Terminal.{power_on}
use presence_platform.Setup.Fields.{WifiCredentials}
use presence_platform.Setup.Access.{SetupApKey, setup_ap_key_magic, setup_key_usable}
use presence_platform.Setup.Pages.{TokenField}
use presence_platform.Setup.Portal.{Store, WifiPortal, PortalState}
use presence_platform.Setup.SoftAp.{PortalTurn, no_network, run_soft_ap_portal}
use presence_platform.Setup.SoftAp.Ends.{EndsRight, run_soft_ap_portal-EndsRight}
use presence_platform.Ota.Guard.{Answers, OtaGuard, fresh_state, OtaBootKind}
use presence_platform.Clock.{Rtc, Clock, handle_clock_skew}
use presence_platform.Clock.Skew.{IsRtc, IsCorrected, handle_clock_skew-IsCorrected}
use presence_platform.Scan.Sequence.{
  Counter, take_number, lose_number, reboot, SeqEvent, used_numbers, Ascends, used_numbers-Ascends,
  next_seq, restore_seq, saved_or_zero,
}
use presence_platform.Net.{Request, Reply}
use presence_platform.Net.Backoff.{net_sleep, total, Paced, net_sleep-total}
use presence_platform.Device.{DeviceNvs, NvsAnswers, identity_writes, Device}
use presence_platform.Device.Commit.{IsIdentity, identity_writes_commit}

abbrev counter : Counter
counter = record { seq = 7; saved = some 7 }

abbrev seq_events : List SeqEvent
seq_events = take_number true ∷ lose_number true ∷ reboot ∷ take_number true ∷ []

seq_run : used_numbers seq_events counter ≡ 8 ∷ 10 ∷ []
unfolding used_numbers next_seq restore_seq saved_or_zero
seq_run = refl

-- Where NVS refuses a write, a number is used again behind a reboot.
seq_reused : used_numbers (take_number false ∷ reboot ∷ take_number true ∷ []) counter ≡ 8 ∷ 8 ∷ []
unfolding used_numbers next_seq restore_seq saved_or_zero
seq_reused = refl

used_numbers-Ascends_example : Ascends 7 (used_numbers seq_events counter)
used_numbers-Ascends_example =
    used_numbers-Ascends seq_events counter (refl, (refl, (tt, (refl, tt))))
      (unfold saved_or_zero in refl) (omega arith)

-- A chip that holds 32 bits of seconds.
abbrev chip : Rtc
chip = record { Chip = ℕ; unixtime = λ c. c % u32_mod; adjust = λ c t. t }

chip-IsRtc : IsRtc chip
chip-IsRtc = record { unixtime_bound = λ c. omega arith; unixtime-adjust = λ c t h. omega arith }

abbrev dead_clock : Clock chip
dead_clock = record { chip = 12; offset = 0; trusted = false; saved_offset = none }

abbrev skew_reply : Bytes
skew_reply = codes "{\"server_time_ms\":1700000000123}"

skew_reply_parses : parse_json_int skew_reply (codes "server_time_ms") ≡ some 1700000000123
unfolding parse_json_int signed_value find_value after_prefix quoted after_colon skip_spaces
    is_space read_signed read_unsigned json_digit read_value
skew_reply_parses = refl

handle_clock_skew-IsCorrected_example :
    IsCorrected chip 1700000000123 (handle_clock_skew chip true false skew_reply dead_clock)
handle_clock_skew-IsCorrected_example =
    handle_clock_skew-IsCorrected chip chip-IsRtc true false skew_reply 1700000000123 dead_clock
      skew_reply_parses (omega arith)

abbrev guard : OtaGuard
guard = record {
  nvs = none;
  st = fresh_state;
  running = 65536;
  running_ok = true;
  awaiting = true;
  deadline_armed = true;
  healthy = false;
  rollback_requested = false;
  boot_ms = 0;
  timeout_ms = 600000;
  kind = OtaBootKind.awaiting_confirm;
  trace = [];
}

abbrev taken : Answers
taken = record { mark_ok = true; arm_ok = true; save_ok = true; clear_ok = true }

net_sleep-total_example :
    (total (net_sleep 5 taken 4500 100 guard).0 ≡ 4500)
    × All (Paced guard) (net_sleep 5 taken 4500 100 guard).0
net_sleep-total_example = net_sleep-total 5 taken 4500 100 guard (omega arith)

abbrev flaky : NvsAnswers
flaky = record {
  id_taken = true;
  version_taken = true;
  secret_taken = true;
  removes = true;
  key_taken = true;
  reads = λ bytes. bytes;
}

abbrev new_nvs : DeviceNvs
new_nvs = record {
  device_id = none;
  key_version = none;
  device_secret = none;
  token = none;
  setup_key = none;
}

abbrev result : ProvisionResult
result = record {
  device_id = codes "d";
  secret = replicate 32 9;
  key_version = 2;
  server_time_ms = 5;
}

identity_writes_commit_example :
    ((identity_writes 2 flaky result new_nvs).device_secret ≡ none)
    ⊎ IsIdentity result (identity_writes 2 flaky result new_nvs)
identity_writes_commit_example = identity_writes_commit 2 flaky result new_nvs refl

abbrev device : Device
device = record {
  nvs = record new_nvs {
    token = some (record { magic = provision_token_magic; token = replicate 64 b'a' ++ 0 ∷ [] });
  };
  secret = replicate 32 0;
  status = power_on;
}

abbrev refusing : Request → Reply
refusing q = record { code = 409; response = [] }

-- A store of one record.
abbrev cell : (R : Type 0) → Store (Option R) R
cell R = record { save = λ s r. (true, some r); load = λ s. s }

abbrev portal : WifiPortal (Option WifiCredentials) (Option ProvisionTokenRecord)
portal = record {
  store = some none;
  token_store = some none;
  token_field = TokenField.hidden;
  ap_ssid = codes "presence-000001";
  origin = [];
  saved_ssid = [];
  timeout_ms = 600000;
  reboot_delay_ms = 3000;
  start_ms = 0;
  saved_ms = 0;
  state = PortalState.idle;
}

abbrev setup_key : SetupApKey
setup_key = record { magic = setup_ap_key_magic; key = codes "abcd-efgh-ijkm-npqr" ++ 0 ∷ [] }

abbrev turns : List PortalTurn
turns =
    record {
      client = some (none ∷ some (codes "GET / HTTP/1.1\r\n\r\n") ∷ []);
      answer_ms = 9;
      tick_ms = 9;
    }
    ∷ record { client = none; answer_ms = 0; tick_ms = 700000 }
    ∷ []

run_soft_ap_portal-EndsRight_example :
    let (end, after) =
      run_soft_ap_portal
        (cell WifiCredentials)
        (cell ProvisionTokenRecord)
        true
        setup_key
        5
        (codes "192.168.4.1")
        turns
        portal in
    ((end ≡ no_network) × (after ≡ portal))
    ⊎ ((setup_key_usable setup_key ≡ true)
        × (true ≡ true)
        × EndsRight (cell WifiCredentials) (cell ProvisionTokenRecord) (end, after))
run_soft_ap_portal-EndsRight_example =
    run_soft_ap_portal-EndsRight (cell WifiCredentials) (cell ProvisionTokenRecord) true setup_key 5
      (codes "192.168.4.1") turns portal
