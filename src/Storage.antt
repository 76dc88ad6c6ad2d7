-- ===== src/Storage.antt =====
-- firmware/src/ring_buffer.h: the abstract class `Storage`, the seam between the ring and LittleFS
-- and NVS. A method that changes the storage returns the new storage and its `bool`.
pub mod Memory
pub mod LittleFs
use presence_platform.Prelude.{
  ℕ, ◌+◌, ◌≤◌, ◌<◌, ◌≡◌, ◌⊎◌, Bool, true, Option, some, Bytes, length, u64_mod,
}

pub record Storage : Type 1 where
  pub Flash : Type 0
  -- `capacityBytes()`
  pub capacity_bytes : ℕ
  -- `readAt(offset, dst, len)`; `none` is the result `false`.
  pub read_at : Flash → ℕ → ℕ → Option Bytes
  pub write_at : Flash → ℕ → Bytes → Flash × Bool
  pub save_cursors : Flash → ℕ → ℕ → Flash × Bool
  pub load_cursors : Flash → Option (ℕ × ℕ)

-- What the ring relies on: a write that succeeds is read back, it leaves the rest of the file and
-- the cursors alone even where it fails, 64-bit cursors are read back, and they lie outside the file.
pub record IsReliable (S : Storage) : Type 0 where
  pub read-write :
      (f : S.Flash) (o : ℕ) (b : Bytes)
      → o + length b ≤ S.capacity_bytes
      → (S.write_at f o b).1 ≡ true
      → S.read_at (S.write_at f o b).0 o (length b) ≡ some b
  pub read-write_apart :
      (f : S.Flash) (o : ℕ) (b : Bytes) (p n : ℕ)
      → (o + length b ≤ p) ⊎ (p + n ≤ o)
      → S.read_at (S.write_at f o b).0 p n ≡ S.read_at f p n
  pub load-write :
      (f : S.Flash) (o : ℕ) (b : Bytes) → S.load_cursors (S.write_at f o b).0 ≡ S.load_cursors f
  pub read-save :
      (f : S.Flash) (h t o n : ℕ) → S.read_at (S.save_cursors f h t).0 o n ≡ S.read_at f o n
  pub load-save :
      (f : S.Flash) (h t : ℕ)
      → h < u64_mod
      → t < u64_mod
      → (S.save_cursors f h t).1 ≡ true
      → S.load_cursors (S.save_cursors f h t).0 ≡ some (h, t)
