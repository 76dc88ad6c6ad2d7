-- ===== src/Ring.antt =====
-- firmware/src/ring_buffer.h: class `RingBuffer`. A method that changes the object returns its result
-- and the new ring. `size_t` has 32 bits (the ESP32), the cursors have 64.
pub mod Log
pub mod Inv
pub mod Slots
pub mod Refine
pub mod Recover
use presence_platform.Prelude.{
  ℕ, zero, suc, ◌+◌, ◌-◌, ◌*◌, ◌/◌, ◌%◌, Bool, true, false, Option, none, some, List, [], ◌∷◌,
  Bytes, ◌==◌, ltb, leb, if◌then◌else◌, to_size, add_u64, sub_u64,
}
use presence_platform.Punch.{PunchRecord, record_size, to_bytes, from_bytes, seal, crc_ok}
use presence_platform.Storage.{Storage}

-- What a slot of the file holds.
pub data Slot : Type 0 where
  -- `readAt` fails
  unreadable : Slot
  -- the checksum does not match
  torn : Slot
  good : PunchRecord → Slot

-- `static_cast<size_t>(i % slots_) * sizeof(PunchRecord)`
unfoldable pub slot_offset : ℕ → ℕ → ℕ
slot_offset slots i = to_size (to_size (i % slots) * record_size)

-- The record in 60 bytes, if its checksum matches.
unfoldable pub check_record : Option Bytes → Slot
check_record none = unreadable
check_record (some bs) = if crc_ok (from_bytes bs) then good (from_bytes bs) else torn

-- The two clamps of `begin`.
unfoldable pub clamp_tail : ℕ → ℕ → ℕ → ℕ
clamp_tail slots head tail =
    let t = if ltb head tail then head else tail in
    if ltb slots (sub_u64 head t) then sub_u64 head slots else t

unfoldable pub cursors_or_zero : Option (ℕ × ℕ) → ℕ × ℕ
cursors_or_zero none = (0, 0)
cursors_or_zero (some c) = c

module _ (S : Storage) where
  open S use {Flash, capacity_bytes, read_at, write_at, save_cursors, load_cursors}

  pub record Ring : Type 0 where
    pub flash : Flash
    pub slots : ℕ
    pub head : ℕ
    pub tail : ℕ

  unfoldable pub begin : Flash → Bool × Ring
  begin f =
      let slots = capacity_bytes / record_size in
      let (h, t) = cursors_or_zero (load_cursors f) in
      if slots == 0
      then (false, record { flash = f; slots = slots; head = 0; tail = 0 })
      else (true, record { flash = f; slots = slots; head = h; tail = clamp_tail slots h t })

  unfoldable pub depth : Ring → ℕ
  depth r = to_size (sub_u64 r.head r.tail)

  unfoldable pub empty : Ring → Bool
  empty r = r.head == r.tail

  unfoldable pub full : Ring → Bool
  full r = leb r.slots (depth r)

  -- `if (full()) tail_++;`
  unfoldable pub make_room : Ring → Ring
  make_room r = if full r then record r { tail = add_u64 r.tail 1 } else r

  -- The record's `writeAt` at the head.
  unfoldable pub write_head : Ring → PunchRecord → Flash × Bool
  unfolding slot_offset
  write_head r rec = write_at r.flash (slot_offset r.slots r.head) (to_bytes (seal rec))

  -- `head_++; return saveCursors(head_, tail_);`
  unfoldable pub commit : Ring → Bool × Ring
  commit r =
      let h = add_u64 r.head 1 in
      let (f, saved) = save_cursors r.flash h r.tail in (saved, record r { flash = f; head = h })

  unfoldable pub append : Ring → PunchRecord → Bool × Ring
  append r rec =
      let r1 = make_room r in
      let (f, written) = write_head r1 rec in
      let r2 = record r1 { flash = f } in
      if r.slots == 0 then (false, r) else if written then commit r2 else (false, r2)

  unfoldable pub read_slot : Flash → ℕ → ℕ → Slot
  unfolding slot_offset check_record
  read_slot f slots i = check_record (read_at f (slot_offset slots i) record_size)

  -- The loop of `peek`: `rounds` is `head_ - i`, `room` is `max - n`.
  unfoldable pub peek_loop : Flash → ℕ → ℕ → ℕ → ℕ → List PunchRecord
  peek_loop f slots zero i room = []
  peek_loop f slots (suc rounds) i zero = []
  peek_loop f slots (suc rounds) i (suc room) = elim (read_slot f slots i) [
    | good rec ↦ rec ∷ peek_loop f slots rounds (i + 1) room
    | _ ↦ peek_loop f slots rounds (i + 1) (suc room)
  ]

  unfoldable pub peek : Ring → ℕ → List PunchRecord
  peek r max = peek_loop r.flash r.slots (r.head - r.tail) r.tail max

  -- The loop of `ackThrough`: `rounds` is `head_ - tail_`; the tail and the count when it stops.
  unfoldable pub ack_loop : Flash → ℕ → ℕ → ℕ → ℕ → ℕ → ℕ × ℕ
  ack_loop f slots seq zero tail dropped = (tail, dropped)
  ack_loop f slots seq (suc rounds) tail dropped =
      let next = ack_loop f slots seq rounds (add_u64 tail 1) (to_size (dropped + 1)) in
      elim (read_slot f slots tail) [
        | unreadable ↦ (tail, dropped)
        | torn ↦ next
        | good rec ↦ if ltb seq rec.seq then (tail, dropped) else next
      ]

  unfoldable pub ack_through : Ring → ℕ → ℕ × Ring
  ack_through r seq =
      let (t, dropped) = ack_loop r.flash r.slots seq (r.head - r.tail) r.tail 0 in
      let (f, saved) = save_cursors r.flash r.head t in (dropped, record r { flash = f; tail = t })
