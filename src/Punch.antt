-- ===== src/Punch.antt =====
-- firmware/src/ring_buffer.h: `PunchRecord`. The C++ struct is packed and is copied to flash as it
-- lies in memory, so a record is its fields, and `to_bytes` is its 60-byte memory image on the
-- little-endian ESP32.
pub mod Layout
use presence_platform.Crc.{crc32}
use presence_platform.Prelude.{
  ℕ, zero, suc, ◌+◌, ◌*◌, ◌/◌, ◌%◌, [], ◌∷◌, ◌++◌, Bytes, take, drop, ◌==◌, Bool,
}

pub record PunchRecord : Type 0 where
  pub seq : ℕ
  pub captured_epoch_ms : ℕ
  pub captured_uptime_ms : ℕ
  pub uuid : Bytes
  pub slot_no : ℕ
  pub match_score : ℕ
  pub credential_kind : ℕ
  pub time_source : ℕ
  pub direction_hint : ℕ
  pub reserved : Bytes
  pub crc : ℕ

-- `sizeof(PunchRecord)`.
abbrev pub record_size : ℕ
record_size = 60

-- The memory image of an unsigned integer of `w` bytes, and the integer that `w` bytes hold.
unfoldable pub le_bytes : ℕ → ℕ → Bytes
le_bytes zero v = []
le_bytes (suc w) v = (v % 256) ∷ le_bytes w (v / 256)

unfoldable pub le_value : Bytes → ℕ
le_value [] = 0
le_value (b ∷ bs) = b + 256 * le_value bs

-- The 56 bytes before `crc32`.
unfoldable pub body_bytes : PunchRecord → Bytes
unfolding le_bytes
body_bytes r =
    le_bytes 8 r.seq
    ++ (le_bytes 8 r.captured_epoch_ms
        ++ (le_bytes 8 r.captured_uptime_ms
            ++ (r.uuid
                ++ (le_bytes 2 r.slot_no
                    ++ (le_bytes 2 r.match_score
                        ++ (le_bytes 1 r.credential_kind
                            ++ (le_bytes 1 r.time_source
                                ++ (le_bytes 1 r.direction_hint ++ r.reserved))))))))

unfoldable pub to_bytes : PunchRecord → Bytes
unfolding body_bytes le_bytes
to_bytes r = body_bytes r ++ le_bytes 4 r.crc

-- `reinterpret_cast<const PunchRecord*>` of 60 bytes.
unfoldable pub from_bytes : Bytes → PunchRecord
unfolding le_value
from_bytes bs =
    let b1 = drop 8 bs in
    let b2 = drop 8 b1 in
    let b3 = drop 8 b2 in
    let b4 = drop 16 b3 in
    let b5 = drop 2 b4 in
    let b6 = drop 2 b5 in
    let b7 = drop 1 b6 in
    let b8 = drop 1 b7 in
    let b9 = drop 1 b8 in
    let b10 = drop 9 b9 in
    record {
      seq = le_value (take 8 bs);
      captured_epoch_ms = le_value (take 8 b1);
      captured_uptime_ms = le_value (take 8 b2);
      uuid = take 16 b3;
      slot_no = le_value (take 2 b4);
      match_score = le_value (take 2 b5);
      credential_kind = le_value (take 1 b6);
      time_source = le_value (take 1 b7);
      direction_hint = le_value (take 1 b8);
      reserved = take 9 b9;
      crc = le_value (take 4 b10);
    }

-- `rec.crc32 = crc32(&rec, sizeof(PunchRecord) - 4)`.
unfoldable pub seal : PunchRecord → PunchRecord
seal r = record r { crc = crc32 (body_bytes r) }

-- `want == rec.crc32`.
unfoldable pub crc_ok : PunchRecord → Bool
crc_ok r = crc32 (body_bytes r) == r.crc
