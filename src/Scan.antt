-- ===== src/Scan.antt =====
-- firmware/src/main.cpp: the scan task: `scanTask`, one round at a time, and `feedbackTask`. What the
-- sensor and the platform answer in a round is a `Reading`; the feedback queue is a list, oldest
-- first.
pub mod Sequence
pub mod Confirmed
use presence_platform.Prelude.{
  ℕ, zero, suc, ◌+◌, ◌*◌, ◌%◌, Bool, true, false, not, ◌&&◌, Option, none, some, List, [], ◌∷◌,
  ◌++◌, Bytes, length, replicate, ◌==◌, ltb, leb, if◌then◌else◌, sub_u32,
}
use presence_platform.Storage.{Storage}
use presence_platform.Punch.{PunchRecord}
use presence_platform.Ring.{Ring, append}
use presence_platform.Terminal.{
  TerminalState, TerminalStatus, note_sensor_comm_error, note_sensor_replied, note_sensor_probe,
  sensor_probe_delay_ms, note_buffer_write_failed, state,
}
use presence_platform.Clock.{Rtc, Clock, now_epoch_ms, time_source_code}
use presence_platform.Scan.Sequence.{Counter, next_seq}

abbrev pub debounce_ms : ℕ
debounce_ms = 5000

-- `xQueueCreate(8, sizeof(uint8_t))`
abbrev pub feedback_room : ℕ
feedback_room = 8

-- `(b[6] & 0x0F) | 0x40` and `(b[8] & 0x3F) | 0x80`, from the byte at `i` on.
unfoldable pub mark_uuid : ℕ → Bytes → Bytes
mark_uuid i [] = []
mark_uuid i (b ∷ bs) =
    (if i == 6 then b % 16 + 0x40 else if i == 8 then b % 64 + 0x80 else b) ∷ mark_uuid (suc i) bs

-- What `getImage` answers: `FINGERPRINT_OK`, `FINGERPRINT_PACKETRECIEVEERR`, or something else.
pub data ImageAnswer : Type 0 where
  image_taken packet_error no_image : ImageAnswer

pub record Reading : Type 0 where
  -- `millis()` where the probe is due or the finger matched, and behind the sensor's answer
  pub now_ms : ℕ
  pub after_ms : ℕ
  -- `verifyPassword`, `getImage`, `image2Tz`, `fingerFastSearch`
  pub password_ok : Bool
  pub image : ImageAnswer
  pub converted : Bool
  pub matched : Bool
  pub finger_id : ℕ
  pub confidence : ℕ
  -- `esp_timer_get_time() / 1000`, and the random bytes
  pub uptime_ms : ℕ
  pub random : Bytes
  -- whether `putULong64` succeeds
  pub seq_written : Bool

module _ (S : Storage) (R : Rtc) where
  pub record Scanner : Type 0 where
    pub ring : Ring S
    pub clock : Clock R
    pub status : TerminalStatus
    pub counter : Counter
    pub last_slot : ℕ
    pub last_slot_at_ms : ℕ
    pub last_probe_ms : ℕ
    pub feedback : List ℕ

  -- `xQueueSend(g_feedbackQueue, &verdict, 0)`: a full queue drops the verdict.
  unfoldable pub send_verdict : ℕ → Scanner → Scanner
  send_verdict verdict s =
      if ltb (length s.feedback) feedback_room
      then record s { feedback = s.feedback ++ verdict ∷ [] }
      else s

  -- The record of a match, with its number.
  unfoldable pub punch_of : Reading → ℕ → Scanner → PunchRecord
  punch_of r seq s = record {
    seq = seq;
    captured_epoch_ms = now_epoch_ms R s.clock;
    captured_uptime_ms = r.uptime_ms;
    uuid = mark_uuid 0 r.random;
    slot_no = r.finger_id;
    match_score = r.confidence;
    credential_kind = 0;
    time_source = time_source_code R s.clock;
    direction_hint = 0;
    reserved = replicate 9 0;
    crc = 0;
  }

  -- Persist first, confirm second.
  unfoldable pub store_punch : Reading → Scanner → Scanner
  store_punch r s =
      let (seq, counter) = next_seq r.seq_written s.counter in
      let (persisted, ring) = append S s.ring (punch_of r seq s) in
      let stored =
        send_verdict (if persisted then 1 else 2) (record s { counter = counter; ring = ring }) in
      if persisted
      then stored
      else record stored { status = note_buffer_write_failed stored.status }

  -- The round from `image2Tz` on.
  unfoldable pub match_finger : Reading → Scanner → Scanner
  match_finger r s =
      if not r.converted
      then s
      else if not r.matched
      then send_verdict 0 s
      else if r.finger_id == s.last_slot && ltb (sub_u32 r.now_ms s.last_slot_at_ms) debounce_ms
      then s
      else store_punch r (record s { last_slot = r.finger_id; last_slot_at_ms = r.now_ms })

  unfoldable pub take_image : Reading → Scanner → Scanner
  take_image r s = elim r.image [
    | packet_error ↦
        let (lost, status) = note_sensor_comm_error s.status in
        record s { status = status; last_probe_ms = if lost then r.after_ms else s.last_probe_ms }
    | no_image ↦ record s { status = note_sensor_replied s.status }
    | image_taken ↦ match_finger r (record s { status = note_sensor_replied s.status })
  ]

  unfoldable pub probe_sensor : Reading → Scanner → Scanner
  probe_sensor r s =
      if leb (sensor_probe_delay_ms s.status) (sub_u32 r.now_ms s.last_probe_ms)
      then record s {
        status = note_sensor_probe r.password_ok s.status;
        last_probe_ms = r.after_ms;
      }
      else s

  -- `st` is what `state()` answers at the start of the round.
  unfoldable pub scan_round : Reading → Scanner → Scanner
  scan_round r s =
      if not s.status.sensor_ok
      then probe_sensor r s
      else elim (state s.status) [ TerminalState.ready ↦ take_image r s | _ ↦ s ]

-- What `feedbackTask` shows: the lamp, its time, and the tone.
pub data Lamp : Type 0 where
  green red : Lamp

pub record Signal : Type 0 where
  pub lamp : Lamp
  pub lamp_ms : ℕ
  pub tone_hz : ℕ
  pub tone_ms : ℕ

unfoldable pub feedback_of : ℕ → Signal
feedback_of verdict =
    if verdict == 1
    then record { lamp = green; lamp_ms = 400; tone_hz = 2000; tone_ms = 120 }
    else record { lamp = red; lamp_ms = 600; tone_hz = 400; tone_ms = 400 }
