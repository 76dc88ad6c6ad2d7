-- ===== src/Tests/Updates.antt =====
-- Versions and the guard of a terminal that runs 1.2.3.
use presence_platform.Prelude.{
  ◌+◌, ◌*◌, ◌^◌, ◌≤◌, ◌≡◌, ◌≢◌, ◌↔◌, refl, true, false, some, none, [], ◌∷◌, Bytes, replicate,
  arith, codes,
}
use presence_platform.Decimal.{json_int, digits, low_digits, reversed}
use presence_platform.Ota.Version.{
  parse_ota_version, ota_version_code, read_version, code_or_invalid, read_part, read_digits,
  is_digit, starts_with_digit, expect_dot, expect_end, push_part,
}
use presence_platform.Ota.Version.RoundTrip.{version_text}
use presence_platform.Ota.Guard.{
  OtaGuard, OtaPersistedState, Answers, accept, rolled_back, normal, fresh_state, begin, check,
  note_pending, loaded_or_fresh,
}
use presence_platform.Ota.Guard.Check.{IsNewer, check-accept}
use presence_platform.Ota.Guard.Floor.{
  IsSynced, stored_floor, hears_gateway, ticks, floor_only_rises,
}
use presence_platform.Ota.Guard.Floor
use presence_platform.Ota.Guard.Confirm.{
  IsCounted, on_healthy_settles, unconfirmed_keeps_floor, tick_deadline, run-IsCounted, rollbacks,
}
use presence_platform.Ota.Guard.Confirm
use presence_platform.Ota.Guard.Rollback.{Abandoned, rolled_back_refused, second_rollback_forgets}

abbrev v1_2_3 : Bytes
v1_2_3 = codes "1.2.3"

abbrev v2_0_10 : Bytes
v2_0_10 = codes "2.0.10"

parse_runs : parse_ota_version v2_0_10 ≡ some (2 * 2 ^ 32 + 10)
unfolding parse_ota_version ota_version_code read_version code_or_invalid read_part read_digits
    is_digit starts_with_digit expect_dot expect_end push_part
parse_runs = refl

parse_running : parse_ota_version v1_2_3 ≡ some (2 ^ 32 + 2 * 2 ^ 16 + 3)
unfolding parse_ota_version ota_version_code read_version code_or_invalid read_part read_digits
    is_digit starts_with_digit expect_dot expect_end push_part
parse_running = refl

leading_zero : parse_ota_version (codes "1.02.3") ≡ none
unfolding parse_ota_version ota_version_code read_version code_or_invalid read_part read_digits
    is_digit starts_with_digit expect_dot expect_end push_part
leading_zero = refl

text_of_2_0_10 : version_text 2 0 10 ≡ v2_0_10
unfolding json_int digits low_digits reversed
text_of_2_0_10 = refl

text_of_1_2_3 : version_text 1 2 3 ≡ v1_2_3
unfolding json_int digits low_digits reversed
text_of_1_2_3 = refl

abbrev yielding : Answers
yielding = record { mark_ok = true; arm_ok = true; save_ok = true; clear_ok = true }

abbrev image : Bytes
image = replicate 32 9

abbrev guard : OtaGuard
guard = record {
  nvs = some fresh_state;
  st = fresh_state;
  running = 2 ^ 32 + 2 * 2 ^ 16 + 3;
  running_ok = true;
  awaiting = false;
  deadline_armed = false;
  healthy = false;
  rollback_requested = false;
  boot_ms = 1000;
  timeout_ms = 600000;
  kind = normal;
  trace = [];
}

-- The guard of an image that is not confirmed.
abbrev unsure : OtaGuard
unsure = record guard { awaiting = true; deadline_armed = true }

check-accept_example : (check guard v2_0_10 image ≡ accept) ↔ IsNewer guard v2_0_10 image
check-accept_example = check-accept guard v2_0_10 image

accepted : check guard v2_0_10 image ≡ accept
unfolding check
accepted = rw parse_runs refl

floor_only_rises_example :
    let h =
      Floor.run
        (hears_gateway yielding ∷ ticks yielding 700000 ∷ [])
        (begin yielding v1_2_3 true 1000 guard) in
    (stored_floor guard ≤ stored_floor h) × (stored_floor h ≤ h.st.floor)
floor_only_rises_example =
    floor_only_rises yielding v1_2_3 true 1000 (hears_gateway yielding ∷ ticks yielding 700000 ∷ [])
      guard

guard-IsSynced : IsSynced guard
unfolding loaded_or_fresh
guard-IsSynced = record { marked = refl; ahead = omega arith }

noted : (note_pending yielding v2_0_10 image guard).0 ≡ true
unfolding note_pending
noted = rw parse_runs refl

rolled_back_refused_example :
    let h = begin yielding v1_2_3 false 2000 (note_pending yielding v2_0_10 image guard).1 in
    (h.kind ≡ rolled_back) × (check h (codes "9.9.9") image ≢ accept)
rolled_back_refused_example =
    rolled_back_refused yielding yielding v2_0_10 image v1_2_3 2000 (2 ^ 32 + 2 * 2 ^ 16 + 3) guard
      (codes "9.9.9") guard-IsSynced noted parse_running different
  where
    different : parse_ota_version v2_0_10 ≢ some (2 ^ 32 + 2 * 2 ^ 16 + 3)
    different = λ e. ground (arith, parse_runs)

-- Image 9 was rolled back before; image 8 at 1.5.0 is rolled back at this boot.
abbrev twice : OtaPersistedState
twice = record fresh_state {
  has_pending = true;
  pending_version = 2 ^ 32 + 5 * 2 ^ 16;
  pending_sha = replicate 32 8;
  has_bad = true;
  bad_sha = image;
}

twice-Abandoned : Abandoned (some twice) v1_2_3
twice-Abandoned = record {
  stored = twice;
  running = 2 ^ 32 + 2 * 2 ^ 16 + 3;
  found = refl;
  marked = refl;
  pending = refl;
  parses = parse_running;
  other = omega arith;
}

second_rollback_forgets_example :
    check (begin yielding v1_2_3 false 2000 (record guard { nvs = some twice })) v2_0_10 image
    ≡ accept
unfolding twice-Abandoned
second_rollback_forgets_example =
    second_rollback_forgets yielding v1_2_3 v2_0_10 image 2000 (2 * 2 ^ 32 + 10)
      (record guard { nvs = some twice }) twice-Abandoned refl (ground arith) parse_runs
      (omega arith) (omega arith)

run-IsCounted_example :
    IsCounted
      (Confirm.run (Confirm.ticks yielding 700000 ∷ Confirm.ticks yielding 700001 ∷ []) unsure)
run-IsCounted_example =
    run-IsCounted (Confirm.ticks yielding 700000 ∷ Confirm.ticks yielding 700001 ∷ []) unsure
      (unfold rollbacks in refl)
