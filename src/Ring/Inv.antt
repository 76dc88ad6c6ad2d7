-- ===== src/Ring/Inv.antt =====
-- The invariant of `RingBuffer`: the cursors span at most the slots of the file, and no arithmetic
-- on them wraps.
use presence_platform.Prelude.{
  ℕ, zero, suc, ◌+◌, ◌-◌, ◌/◌, ◌≤◌, ◌<◌, ◌≡◌, arith, size_mod, u64_mod, to_size,
}
use presence_platform.Punch.{PunchRecord, record_size}
use presence_platform.Storage.{Storage}
use presence_platform.Ring.{
  Ring, clamp_tail, depth, full, make_room, commit, append, ack_loop, ack_through,
}

module _ (S : Storage) where
  pub record IsValid (r : Ring S) : Type 0 where
    pub fits : S.capacity_bytes < size_mod
    pub slots_eq : r.slots ≡ S.capacity_bytes / record_size
    pub slots_pos : 0 < r.slots
    pub ordered : r.tail ≤ r.head
    pub within : r.head ≤ r.tail + r.slots
    pub head_fits : r.head < u64_mod

-- `begin` clamps any pair of cursors that NVS may hold to one that the ring can have.
pub clamp_tail_bounds :
    (slots h t : ℕ)
    → h < u64_mod
    → t < u64_mod
    → 0 < slots
    → (clamp_tail slots h t ≤ h) × (h ≤ clamp_tail slots h t + slots)
unfolding clamp_tail
clamp_tail_bounds slots h t hh ht hs = ground arith

-- A pair that the ring can have is left alone.
pub clamp_tail_id : (slots h t : ℕ) → h < u64_mod → t ≤ h → h ≤ t + slots → clamp_tail slots h t ≡ t
unfolding clamp_tail
clamp_tail_id slots h t hh ht hs = ground arith

module _ (S : Storage) where
  pub depth-eq : (r : Ring S) → IsValid S r → depth S r ≡ r.head - r.tail
  unfolding depth
  depth-eq r v = omega (arith, v)

  pub make_room-IsValid :
      (r : Ring S)
      → IsValid S r
      → IsValid S (make_room S r)
        × ((make_room S r).head < (make_room S r).tail + r.slots)
        × ((make_room S r).head ≡ r.head)
        × ((make_room S r).slots ≡ r.slots)
  unfolding make_room full depth
  make_room-IsValid r v = ground arith

  -- Appending keeps the invariant of a ring whose head is not the last 64-bit value, whatever
  -- its storage answers.
  pub append-IsValid :
      (r : Ring S) (rec : PunchRecord)
      → IsValid S r
      → r.head + 1 < u64_mod
      → IsValid S (append S r rec).1
  unfolding append commit
  append-IsValid r rec v h = ground (arith, make_room-IsValid r v)

  pub ack_loop_bounds :
      (f : S.Flash) (slots seq rounds tail dropped : ℕ)
      → tail + rounds < u64_mod
      → (tail ≤ (ack_loop S f slots seq rounds tail dropped).0)
        × ((ack_loop S f slots seq rounds tail dropped).0 ≤ tail + rounds)
  unfolding ack_loop
  ack_loop_bounds f slots seq zero tail dropped h = omega arith
  ack_loop_bounds f slots seq (suc rounds) tail dropped h =
      ground (arith, ack_loop_bounds f slots seq rounds (tail + 1) (to_size (dropped + 1)))

  -- Acknowledging keeps the invariant of a ring, whatever its storage answers.
  pub ack_through-IsValid : (r : Ring S) (seq : ℕ) → IsValid S r → IsValid S (ack_through S r seq).1
  unfolding ack_through
  ack_through-IsValid r seq v =
      ground (arith, ack_loop_bounds r.flash r.slots seq (r.head - r.tail) r.tail 0)
