-- ===== src/Ring/Recover.antt =====
-- What a restart finds: `begin` on a file and cursors left by a power cut at any point.
use presence_platform.Prelude.{
  ℕ, ◌+◌, ◌/◌, ◌≤◌, ◌<◌, ◌≡◌, refl, true, some, arith, ◌⊎◌, inl, inr, Bool-cases, u64_mod, size_mod,
  ◌==◌, ==_ne,
}
use presence_platform.Punch.{PunchRecord, record_size, seal}
use presence_platform.Punch.Layout.{Fits}
use presence_platform.Storage.{Storage, IsReliable}
use presence_platform.Ring.{
  Ring, slot_offset, cursors_or_zero, begin, make_room, write_head, commit, append,
}
use presence_platform.Ring.Log.{push}
use presence_platform.Ring.Inv.{
  IsValid, clamp_tail_bounds, clamp_tail_id, make_room-IsValid, append-IsValid,
}
use presence_platform.Ring.Slots.{contents}
use presence_platform.Ring.Refine.{append-contents}

module _ (S : Storage) where
  -- The cursors in NVS are `uint64_t`.
  abbrev pub CursorsFit : S.Flash → Type 0
  CursorsFit f = let (h, t) = cursors_or_zero (S.load_cursors f) in (h < u64_mod) × (t < u64_mod)

  -- Whatever pair of 64-bit cursors the storage returns, or none, `begin` on a file with room
  -- for one record and of a size below 2^32 succeeds and gives a ring with the invariant.
  pub begin-IsValid :
      (f : S.Flash)
      → S.capacity_bytes < size_mod
      → record_size ≤ S.capacity_bytes
      → CursorsFit f
      → ((begin S f).0 ≡ true) × IsValid S (begin S f).1
  unfolding begin
  begin-IsValid f small room (hh, ht) =
      rw (==_ne (S.capacity_bytes / record_size) 0 (omega arith)) (
        refl,
        omega (
          arith,
          clamp_tail_bounds (S.capacity_bytes / record_size) (cursors_or_zero (S.load_cursors f)).0
              (cursors_or_zero (S.load_cursors f)).1,
        ),
      )

  -- The cursors in NVS are those of the ring.
  abbrev pub IsDurable : Ring S → Type 0
  IsDurable r = S.load_cursors r.flash ≡ some (r.head, r.tail)

  -- A restart restores a ring whose cursors are saved.
  pub begin_restores : (r : Ring S) → IsValid S r → IsDurable r → begin S r.flash ≡ (true, r)
  unfolding begin cursors_or_zero
  begin_restores r v d = rw (
    d,
    cursors_or_zero,
    ← v.slots_eq,
    ==_ne r.slots 0 (omega (arith, v)),
    clamp_tail_id r.slots r.head r.tail v.head_fits v.ordered v.within,
  )

  commit-IsDurable :
      IsReliable S
      → (r : Ring S) → r.tail < u64_mod
      → (commit S r).0 ≡ true
      → IsDurable (commit S r).1
  unfolding commit
  commit-IsDurable R r t h = R.load-save r.flash _ _ (omega arith) t h

  append-IsDurable :
      IsReliable S
      → (r : Ring S) (rec : PunchRecord) → IsValid S r
      → (append S r rec).0 ≡ true
      → IsDurable (append S r rec).1
  unfolding append
  append-IsDurable R r rec v h = elim (Bool-cases (r.slots == 0)) [
    | inl p ↦ cc (rw p at h)
    | inr p ↦ elim (Bool-cases (write_head S (make_room S r) rec).1) [
      | inl w ↦
          rw (p, w)
            (commit-IsDurable R _ (omega (arith, (make_room-IsValid S r v).0)) (rw (p, w) at h))
      | inr w ↦ cc (rw (p, w) at h)
    ]
  ]

  append-written :
      (r : Ring S) (rec : PunchRecord)
      → (append S r rec).0 ≡ true
      → (write_head S (make_room S r) rec).1 ≡ true
  unfolding append
  append-written r rec h = elim (Bool-cases (r.slots == 0)) [
    | inl p ↦ cc (rw p at h)
    | inr p ↦ elim (Bool-cases (write_head S (make_room S r) rec).1) [
      | inl w ↦ w
      | inr w ↦ cc (rw (p, w) at h)
    ]
  ]

  -- If a ring with the invariant, whose head is not the last 64-bit value, appends a record
  -- whose fields fit their widths, over a storage that keeps what it promises, and the append
  -- returns true, then a restart succeeds, restores the invariant, and finds the old slots
  -- (less the oldest where the ring was full) with the sealed record behind them.
  pub confirmed_survives :
      (R : IsReliable S) (r : Ring S) (rec : PunchRecord)
      → IsValid S r
      → Fits rec
      → r.head + 1 < u64_mod
      → (append S r rec).0 ≡ true
      → let r2 = (begin S (append S r rec).1.flash).1 in
        ((begin S (append S r rec).1.flash).0 ≡ true)
        × IsValid S r2
        × (contents S r2 ≡ push r.slots (seal rec) (contents S r))
  confirmed_survives R r rec v fits small done =
      let v2 = append-IsValid S r rec v small in
      rw (begin_restores (append S r rec).1 v2 (append-IsDurable R r rec v done))
        (refl, v2, rw (append-written r rec done) at (append-contents S R r rec v fits small))

  -- The file and the cursors after a power cut inside `append`, before `saveCursors`.
  pub data PowerCut (r : Ring S) (rec : PunchRecord) (f : S.Flash) : Type 0 where
    before_write : f ≡ r.flash → PowerCut r rec f
    -- The slot at the head holds anything; the rest of the file and the cursors are as they were.
    during_write :
        ((p n : ℕ)
          → (slot_offset r.slots r.head + record_size ≤ p) ⊎ (p + n ≤ slot_offset r.slots r.head)
          → S.read_at f p n ≡ S.read_at r.flash p n)
        → S.load_cursors f ≡ S.load_cursors r.flash
        → PowerCut r rec f
    before_commit : f ≡ (write_head S (make_room S r) rec).0 → PowerCut r rec f
