-- ===== src/Punch/Layout.antt =====
-- The memory image of a `PunchRecord` is 60 bytes long and reads back as the record.
use native.Mathlib.Nat.{pow-suc}
use presence_platform.Crc.{crc32, crc32-lt}
use presence_platform.Punch.{
  PunchRecord, record_size, le_bytes, le_value, body_bytes, to_bytes, from_bytes, seal, crc_ok,
}
use presence_platform.Prelude.{
  ℕ, zero, suc, ◌/◌, ◌^◌, ◌<◌, ◌≡◌, refl, ap, true, ◌++◌, Bytes, append_assoc, length, take, drop,
  length-append, take-append_exact, drop-append_exact, arith, ==_refl,
}

pub length-le_bytes : (w v : ℕ) → length (le_bytes w v) ≡ w
unfolding le_bytes
length-le_bytes zero v = refl
length-le_bytes (suc w) v = ap suc (length-le_bytes w (v / 256))

pub le_value-le_bytes : (w v : ℕ) → v < 256 ^ w → le_value (le_bytes w v) ≡ v
unfolding le_bytes le_value
le_value-le_bytes zero v h = omega arith
le_value-le_bytes (suc w) v h =
    omega (arith, le_value-le_bytes w (v / 256) (omega (arith, pow-suc 256 w)))

-- The fields fit their C++ types.
pub record Fits (r : PunchRecord) : Type 0 where
  pub seq_fits : r.seq < 2 ^ 64
  pub epoch_fits : r.captured_epoch_ms < 2 ^ 64
  pub uptime_fits : r.captured_uptime_ms < 2 ^ 64
  pub uuid_fits : length r.uuid ≡ 16
  pub slot_fits : r.slot_no < 2 ^ 16
  pub score_fits : r.match_score < 2 ^ 16
  pub kind_fits : r.credential_kind < 2 ^ 8
  pub source_fits : r.time_source < 2 ^ 8
  pub hint_fits : r.direction_hint < 2 ^ 8
  pub reserved_fits : length r.reserved ≡ 9
  pub crc_fits : r.crc < 2 ^ 32

module _ (w v : ℕ) (rest : Bytes) where
  -- One integer field of the image, in front of the rest.
  take_field : v < 256 ^ w → le_value (take w (le_bytes w v ++ rest)) ≡ v
  take_field h =
      rw (take-append_exact (le_bytes w v) rest w (length-le_bytes w v)) (le_value-le_bytes w v h)

  drop_field : drop w (le_bytes w v ++ rest) ≡ rest
  drop_field = drop-append_exact (le_bytes w v) rest w (length-le_bytes w v)

length-body_bytes : (r : PunchRecord) → Fits r → length (body_bytes r) ≡ 56
unfolding body_bytes
length-body_bytes r f = omega (
  arith,
  f,
  length-append r.uuid (
      le_bytes 2 r.slot_no
      ++ (le_bytes 2 r.match_score
          ++ (le_bytes 1 r.credential_kind
              ++ (le_bytes 1 r.time_source ++ (le_bytes 1 r.direction_hint ++ r.reserved))))),
)

pub length-to_bytes : (r : PunchRecord) → Fits r → length (to_bytes r) ≡ record_size
unfolding to_bytes
length-to_bytes r f =
    omega (arith, length-body_bytes r f, length-append (body_bytes r) (le_bytes 4 r.crc))

-- A record whose fields fit their widths is read back from its 60 bytes.
pub from_bytes-to_bytes : (r : PunchRecord) → Fits r → from_bytes (to_bytes r) ≡ r
unfolding from_bytes to_bytes body_bytes
from_bytes-to_bytes r f =
    simp
      (
        append_assoc,
        take-append_exact r.uuid _ 16 f.uuid_fits,
        drop-append_exact r.uuid _ 16 f.uuid_fits,
        take-append_exact r.reserved _ 9 f.reserved_fits,
        drop-append_exact r.reserved _ 9 f.reserved_fits,
      )
      (cc (
        le_value-le_bytes 8 r.seq f.seq_fits,
        le_value-le_bytes 8 r.captured_epoch_ms f.epoch_fits,
        le_value-le_bytes 8 r.captured_uptime_ms f.uptime_fits,
        le_value-le_bytes 2 r.slot_no f.slot_fits,
        le_value-le_bytes 2 r.match_score f.score_fits,
        le_value-le_bytes 1 r.credential_kind f.kind_fits,
        le_value-le_bytes 1 r.time_source f.source_fits,
        le_value-le_bytes 1 r.direction_hint f.hint_fits,
        le_value-le_bytes 4 r.crc f.crc_fits,
      ))

-- What `append` writes is read back as the same record, and its checksum is accepted.
pub seal-Fits : (r : PunchRecord) → Fits r → Fits (seal r)
unfolding seal
seal-Fits r f = record {
  seq_fits = f.seq_fits;
  epoch_fits = f.epoch_fits;
  uptime_fits = f.uptime_fits;
  uuid_fits = f.uuid_fits;
  slot_fits = f.slot_fits;
  score_fits = f.score_fits;
  kind_fits = f.kind_fits;
  source_fits = f.source_fits;
  hint_fits = f.hint_fits;
  reserved_fits = f.reserved_fits;
  crc_fits = crc32-lt (body_bytes r);
}

pub crc_ok-seal : (r : PunchRecord) → crc_ok (seal r) ≡ true
unfolding crc_ok seal body_bytes
crc_ok-seal r = ==_refl (crc32 (body_bytes r))
