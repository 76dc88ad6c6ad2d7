-- ===== src/Events.antt =====
-- firmware/src/events_json.h: the body of an upload, `appendPadded`, `formatRfc3339Utc`, `formatUuid`,
-- the names of the enum codes and `buildEventsJson`. A text that a function appends is its result.
pub mod Calendar
pub mod Timestamp
use presence_platform.Prelude.{
  ℕ, zero, suc, ◌+◌, ◌-◌, ◌*◌, ◌/◌, ◌%◌, ◌^◌, Bool, true, false, ◌||◌, List, [], ◌∷◌, ◌++◌, Bytes,
  codes, length, replicate, ◌==◌, ltb, leb, if◌then◌else◌,
}
use presence_platform.Decimal.{reversed, json_int}
use presence_platform.Hex.{hex_digit}
use presence_platform.Punch.{PunchRecord}

pub record BatchMeta : Type 0 where
  pub request_id : Bytes
  pub device_uptime_ms : ℕ
  pub buffer_depth : ℕ

-- `do { ... } while (v != 0 && n < sizeof(digits))`, the low digit first; the fuel is what is left of
-- the 20 digits.
unfoldable pub low_padded : ℕ → ℕ → Bytes
low_padded zero v = []
low_padded (suc fuel) v =
    let rest = low_padded fuel (v / 10) in (b'0' + v % 10) ∷ (if v / 10 == 0 then [] else rest)

-- For a `v` that is not negative, as in every call.
unfoldable pub append_padded : ℕ → ℕ → Bytes
append_padded v width =
    let digits = low_padded 20 v in replicate (width - length digits) b'0' ++ reversed digits

pub record CivilDate : Type 0 where
  pub year : ℕ
  pub month : ℕ
  pub day : ℕ

-- Year, month and day of the day of an era, before the year is pinned. `doe`, `yoe` and `doy` are the
-- days and years within an era and a year that starts in March.
unfoldable pub year_of_era : ℕ → ℕ
year_of_era doe = (doe - doe / 1460 + doe / 36524 - doe / 146096) / 365

unfoldable pub day_of_year : ℕ → ℕ → ℕ
day_of_year doe yoe = doe - (365 * yoe + yoe / 4 - yoe / 100)

unfoldable pub month_part : ℕ → ℕ
month_part doy = (5 * doy + 2) / 153

unfoldable pub civil_in_era : ℕ → ℕ → CivilDate
civil_in_era era doe =
    let yoe = year_of_era doe in
    let doy = day_of_year doe yoe in
    let mp = month_part doy in
    let month = (if ltb mp 10 then mp + 3 else mp - 9) in
    record {
      year = yoe + era * 400 + (if leb month 2 then 1 else 0);
      month = month;
      day = doy - (153 * mp + 2) / 5 + 1;
    }

unfoldable pub civil_from_days : ℕ → CivilDate
civil_from_days days = let z = days + 719468 in civil_in_era (z / 146097) (z % 146097)

unfoldable pub pinned_year : ℕ → ℕ
pinned_year year = if ltb 9999 year then 9999 else year

unfoldable pub clock_text : ℕ → Bytes
clock_text ms_of_day =
    append_padded (ms_of_day / 3600000) 2
    ++ codes ":"
    ++ append_padded (ms_of_day / 60000 % 60) 2
    ++ codes ":"
    ++ append_padded (ms_of_day / 1000 % 60) 2
    ++ codes "."
    ++ append_padded (ms_of_day % 1000) 3
    ++ codes "Z"

unfoldable pub date_text : CivilDate → Bytes
date_text c =
    append_padded (pinned_year c.year) 4
    ++ codes "-"
    ++ append_padded c.month 2
    ++ codes "-"
    ++ append_padded c.day 2
    ++ codes "T"

-- Of a 64-bit pattern: from 2^63 on it is negative.
unfoldable pub format_rfc3339_utc : ℕ → Bytes
format_rfc3339_utc epoch_ms =
    let ms = (if leb (2 ^ 63) epoch_ms then 0 else epoch_ms) in
    date_text (civil_from_days (ms / 86400000)) ++ clock_text (ms % 86400000)

-- The loop of `formatUuid`, at index `i`.
unfoldable pub uuid_text : ℕ → Bytes → Bytes
uuid_text i [] = []
uuid_text i (b ∷ bs) =
    let dash = (if i == 4 || i == 6 || i == 8 || i == 10 then b'-' ∷ [] else []) in
    dash ++ hex_digit (b / 16) ∷ hex_digit (b % 16) ∷ uuid_text (i + 1) bs

unfoldable pub format_uuid : Bytes → Bytes
format_uuid uuid = uuid_text 0 uuid

unfoldable pub credential_kind_name : ℕ → Bytes
credential_kind_name code =
    if code == 0
    then codes "fingerprint"
    else if code == 1
    then codes "rfid_card"
    else if code == 2
    then codes "nfc_tag"
    else if code == 3
    then codes "pin"
    else if code == 4
    then codes "qr"
    else codes "fingerprint"

unfoldable pub time_source_name : ℕ → Bytes
time_source_name code =
    if code == 0
    then codes "rtc_synced"
    else if code == 1
    then codes "rtc_unsynced"
    else if code == 2
    then codes "uptime_only"
    else codes "server_assigned"

unfoldable pub direction_hint_name : ℕ → Bytes
direction_hint_name code =
    if code == 1 then codes "in" else if code == 2 then codes "out" else codes "unknown"

-- The parts of an event that are left out when there is no value.
unfoldable pub optional_time : ℕ → Bytes
optional_time epoch_ms =
    if ltb 0 epoch_ms
    then codes ",\"captured_at\":\"" ++ format_rfc3339_utc epoch_ms ++ codes "\""
    else []

unfoldable pub optional_number : Bytes → ℕ → Bytes
optional_number label v = if ltb 0 v then label ++ json_int v else []

unfoldable pub event_json : PunchRecord → Bytes
event_json r =
    codes "{\"seq\":"
    ++ json_int r.seq
    ++ codes ",\"event_uuid\":\""
    ++ format_uuid r.uuid
    ++ codes "\""
    ++ optional_time r.captured_epoch_ms
    ++ optional_number (codes ",\"captured_uptime_ms\":") r.captured_uptime_ms
    ++ codes ",\"time_source\":\""
    ++ time_source_name r.time_source
    ++ codes "\",\"credential_kind\":\""
    ++ credential_kind_name r.credential_kind
    ++ codes "\""
    ++ optional_number (codes ",\"slot_no\":") r.slot_no
    ++ optional_number (codes ",\"match_score\":") r.match_score
    ++ codes ",\"direction_hint\":\""
    ++ direction_hint_name r.direction_hint
    ++ codes "\"}"

-- The loop over the batch; `first` is `i == 0`.
unfoldable pub events_json : Bool → List PunchRecord → Bytes
events_json first [] = []
events_json first (r ∷ rs) =
    (if first then [] else b',' ∷ []) ++ event_json r ++ events_json false rs

unfoldable pub build_events_json : List PunchRecord → BatchMeta → Bytes
build_events_json batch meta =
    codes "{\"request_id\":\""
    ++ meta.request_id
    ++ codes "\",\"device_uptime_ms\":"
    ++ json_int meta.device_uptime_ms
    ++ codes ",\"buffer_depth\":"
    ++ json_int meta.buffer_depth
    ++ codes ",\"events\":["
    ++ events_json true batch
    ++ codes "]}"
