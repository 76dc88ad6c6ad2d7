-- ===== src/Ring/Slots.antt =====
-- Where the slots of the file lie, and what the ring reads there: slots of positions less than a
-- whole ring apart do not overlap.
use native.Mathlib.Nat.{mod-add-mod, mod-eq_of_lt, mod-eq-sub-mod, mod-lt}
use presence_platform.Prelude.{
  ℕ, zero, suc, ◌+◌, ◌-◌, ◌*◌, ◌/◌, ◌%◌, ◌≤◌, ◌<◌, ◌≡◌, ◌≢◌, ◌⊎◌, inl, inr, refl, ap, ◌∙◌, ap₂,
  true, some, List, [], ◌∷◌, ◌++◌, arith, length, size_mod,
}
use native.Mathlib.Decide.{dec_lt}
use presence_platform.Punch.{PunchRecord, record_size, to_bytes, seal}
use presence_platform.Punch.Layout.{
  Fits, seal-Fits, length-to_bytes, from_bytes-to_bytes, crc_ok-seal,
}
use presence_platform.Storage.{Storage, IsReliable}
use presence_platform.Ring.{Slot, good, slot_offset, check_record, Ring, read_slot, write_head}
use presence_platform.Ring.Inv.{IsValid}

-- Fewer than `s` steps on do not come back to the same residue.
mod_moves : (s i d : ℕ) → 0 < d → d < s → (i + d) % s ≢ i % s
mod_moves s i d hd hs = elim (dec_lt (i % s + d) s) [
  | yes p ↦ omega (arith, mod-add-mod i s d, mod-eq_of_lt p)
  | no p ↦ omega (
    arith,
    mod-add-mod i s d,
    mod-lt i {m = s} (omega arith),
    mod-eq-sub-mod {n = i % s + d} {m = s} (omega arith),
    mod-eq_of_lt {n = i % s + d - s} {m = s} (omega (arith, mod-lt i {m = s} (omega arith))),
  )
]

slot_index_lt : (slots i : ℕ) → 0 < slots → i % slots < slots
slot_index_lt slots i h = mod-lt i {m = slots} h

-- No arithmetic of `slot_offset` wraps, and a slot lies inside the file.
pub slot_offset-eq :
    (cap slots i : ℕ)
    → cap < size_mod
    → slots ≡ cap / record_size
    → 0 < slots
    → (slot_offset slots i ≡ (i % slots) * 60) × (slot_offset slots i + 60 ≤ cap)
unfolding slot_offset
slot_offset-eq cap slots i hc e hs = omega (arith, slot_index_lt slots i hs)

pub slots_apart :
    (cap slots i j : ℕ)
    → cap < size_mod
    → slots ≡ cap / record_size
    → i < j
    → j < i + slots
    → (slot_offset slots j + 60 ≤ slot_offset slots i)
      ⊎ (slot_offset slots i + 60 ≤ slot_offset slots j)
slots_apart cap slots i j hc e hi hj = elim (dec_lt (i % slots) (j % slots)) [
  | yes p ↦ inr (
      omega (
        arith,
        slot_offset-eq cap slots i hc e (omega arith),
        slot_offset-eq cap slots j hc e (omega arith),
      ))
  | no p ↦ inl (
      omega (
        arith,
        slot_offset-eq cap slots i hc e (omega arith),
        slot_offset-eq cap slots j hc e (omega arith),
        ne,
      ))
]
  where
    ne : j % slots ≢ i % slots
    ne = λ q.
        mod_moves slots i (j - i) (omega arith) (omega arith)
          (ap (λ k. k % slots) (omega arith) ∙ q)

check_record-to_bytes :
    (rec : PunchRecord) → Fits rec → check_record (some (to_bytes (seal rec))) ≡ good (seal rec)
unfolding check_record
check_record-to_bytes rec f = rw (from_bytes-to_bytes (seal rec) (seal-Fits rec f), crc_ok-seal rec)

module _ (S : Storage) where
  -- The slots at positions `i` to `i + k`, oldest first.
  abbrev pub window : S.Flash → ℕ → ℕ → ℕ → List Slot
  window f slots zero i = []
  window f slots (suc k) i = read_slot S f slots i ∷ window f slots k (i + 1)

  -- The unacknowledged slots of a ring.
  abbrev pub contents : Ring S → List Slot
  contents r = window r.flash r.slots (r.head - r.tail) r.tail

  pub length-window : (f : S.Flash) (slots k i : ℕ) → length (window f slots k i) ≡ k
  length-window f slots zero i = refl
  length-window f slots (suc k) i = ap suc (length-window f slots k (i + 1))

  -- The window is what its slots hold.
  pub window_ext :
      (f g : S.Flash) (slots k i : ℕ)
      → ((j : ℕ) → i ≤ j → j < i + k → read_slot S g slots j ≡ read_slot S f slots j)
      → window g slots k i ≡ window f slots k i
  window_ext f g slots zero i h = refl
  window_ext f g slots (suc k) i h =
      ap₂ ◌∷◌ (h i (omega arith) (omega arith))
        (window_ext f g slots k (i + 1) (λ j lo hi. h j (omega arith) (omega arith)))

  pub window_snoc :
      (f : S.Flash) (slots k i j : ℕ)
      → i + k ≡ j
      → window f slots (suc k) i ≡ window f slots k i ++ read_slot S f slots j ∷ []
  window_snoc f slots zero i j e = ap (λ n. read_slot S f slots n ∷ []) (omega arith)
  window_snoc f slots (suc k) i j e =
      ap (◌∷◌ (read_slot S f slots i)) (window_snoc f slots k (i + 1) j (omega arith))

  module _ (R : IsReliable S) (r : Ring S) (v : IsValid S r) (rec : PunchRecord) where
    -- A record whose write succeeds is what its slot then holds.
    pub read_slot-write_head :
        Fits rec
        → (write_head S r rec).1 ≡ true
        → read_slot S (write_head S r rec).0 r.slots r.head ≡ good (seal rec)
    unfolding write_head read_slot
    read_slot-write_head fits written =
        let size = length-to_bytes (seal rec) (seal-Fits rec fits) in
        let place = slot_offset-eq S.capacity_bytes r.slots r.head v.fits v.slots_eq v.slots_pos in
        let off = slot_offset r.slots r.head in
        let stored = R.read-write r.flash off (to_bytes (seal rec)) (omega arith) written in
        ap check_record (rw size at stored) ∙ check_record-to_bytes rec fits

    -- A write at the head, failed or not, leaves every other slot of the ring alone.
    pub read_slot-write_head_apart :
        (j : ℕ)
        → Fits rec
        → j < r.head
        → r.head < j + r.slots
        → read_slot S (write_head S r rec).0 r.slots j ≡ read_slot S r.flash r.slots j
    unfolding write_head read_slot
    read_slot-write_head_apart j fits lo hi =
        let size = length-to_bytes (seal rec) (seal-Fits rec fits) in
        let apart = slots_apart S.capacity_bytes r.slots j r.head v.fits v.slots_eq lo hi in
        ap check_record (
          R.read-write_apart r.flash (slot_offset r.slots r.head) (to_bytes (seal rec))
            (slot_offset r.slots j) 60 (omega arith))

  -- Saving the cursors changes no slot.
  pub read_slot-save :
      IsReliable S
      → (f : S.Flash) (h t slots j : ℕ)
      → read_slot S (S.save_cursors f h t).0 slots j ≡ read_slot S f slots j
  unfolding read_slot
  read_slot-save R f h t slots j = ap check_record (R.read-save f h t _ _)
