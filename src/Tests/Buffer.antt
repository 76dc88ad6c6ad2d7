-- ===== src/Tests/Buffer.antt =====
-- The ring over 120 bytes of memory: two slots.
use presence_platform.Prelude.{
  ℕ, ◌≡◌, refl, true, List, [], ◌∷◌, replicate, arith, drop, if◌then◌else◌, codes,
}
use presence_platform.Crc.{crc32}
use presence_platform.Punch.{PunchRecord, seal, to_bytes, from_bytes, body_bytes, crc_ok}
use presence_platform.Punch.Layout.{Fits}
use presence_platform.Storage.{Storage}
use presence_platform.Storage.Memory.{Memory, memory_storage, memory-IsReliable, read, write}
use presence_platform.Ring.{
  Ring, begin, append, peek, ack_through, depth, full, make_room, write_head, commit, clamp_tail,
  cursors_or_zero, slot_offset, check_record, read_slot, peek_loop,
}
use presence_platform.Ring.Log.{evict, push, acked_prefix}
use presence_platform.Ring.Inv.{IsValid}
use presence_platform.Ring.Slots.{contents}
use presence_platform.Ring.Refine.{append-contents, ack_through-contents}
use presence_platform.Ring.Recover.{begin-IsValid, confirmed_survives}

-- The check value of CRC-32.
check_value : crc32 (codes "123456789") ≡ 0xCBF43926
unfolding crc32
check_value = refl

abbrev punch : ℕ → PunchRecord
punch n = record {
  seq = n;
  captured_epoch_ms = 1700000000000;
  captured_uptime_ms = 5000;
  uuid = replicate 16 7;
  slot_no = 42;
  match_score = 180;
  credential_kind = 0;
  time_source = 1;
  direction_hint = 0;
  reserved = replicate 9 0;
  crc = 0;
}

punch-Fits : Fits (punch 3)
punch-Fits = record {
  seq_fits = omega arith;
  epoch_fits = omega arith;
  uptime_fits = omega arith;
  uuid_fits = refl;
  slot_fits = omega arith;
  score_fits = omega arith;
  kind_fits = omega arith;
  source_fits = omega arith;
  hint_fits = omega arith;
  reserved_fits = refl;
  crc_fits = omega arith;
}

abbrev memory : Storage
memory = memory_storage 120

abbrev blank : Memory
blank = record { byte_at = λ a. 0; cursors = (7, 5) }

-- A full ring: two slots from position 5 on, both torn.
abbrev full_ring : Ring memory
full_ring = record { flash = blank; slots = 2; head = 7; tail = 5 }

full_ring-IsValid : IsValid memory full_ring
full_ring-IsValid = omega arith

appended : (append memory full_ring (punch 3)).0 ≡ true
unfolding append make_room full depth write_head commit slot_offset write to_bytes seal body_bytes
    crc32
appended = refl

confirmed_survives_example :
    let r2 = (begin memory (append memory full_ring (punch 3)).1.flash).1 in
    ((begin memory (append memory full_ring (punch 3)).1.flash).0 ≡ true)
    × IsValid memory r2
    × (contents memory r2 ≡ push 2 (seal (punch 3)) (contents memory full_ring))
confirmed_survives_example =
    confirmed_survives memory (memory-IsReliable 120) full_ring (punch 3) full_ring-IsValid
      punch-Fits (omega arith) appended

append-contents_example : contents memory (append memory full_ring (punch 3)).1 ≡ (
    if (write_head memory (make_room memory full_ring) (punch 3)).1
    then push 2 (seal (punch 3)) (contents memory full_ring)
    else evict 2 (contents memory full_ring))
append-contents_example =
    append-contents memory (memory-IsReliable 120) full_ring (punch 3) full_ring-IsValid punch-Fits
      (omega arith)

ack_through-contents_example :
    let n = acked_prefix 3 (contents memory full_ring) in
    ((ack_through memory full_ring 3).0 ≡ n)
    × (contents memory (ack_through memory full_ring 3).1 ≡ drop n (contents memory full_ring))
ack_through-contents_example =
    ack_through-contents memory (memory-IsReliable 120) full_ring 3 full_ring-IsValid

-- A tail past the head, as a corrupt entry may leave it.
abbrev corrupt : Memory
corrupt = record { byte_at = λ a. 0; cursors = (7, 9) }

begin-IsValid_example : ((begin memory corrupt).0 ≡ true) × IsValid memory (begin memory corrupt).1
begin-IsValid_example =
    begin-IsValid memory corrupt (omega arith) (omega arith)
      (unfold cursors_or_zero in (omega arith, omega arith))

map_seq : List PunchRecord → List ℕ
map_seq [] = []
map_seq (r ∷ rs) = r.seq ∷ map_seq rs

-- What is appended to an empty ring is what is peeked, sealed.
append-peek :
    let r = (begin memory (record blank { cursors = (0, 0) })).1 in
    map_seq (peek memory (append memory (append memory r (punch 1)).1 (punch 2)).1 9) ≡ 1 ∷ 2 ∷ []
unfolding map_seq begin cursors_or_zero clamp_tail append make_room full depth write_head commit
    slot_offset write to_bytes seal body_bytes crc32 peek peek_loop read_slot read check_record
    crc_ok from_bytes
append-peek = refl
