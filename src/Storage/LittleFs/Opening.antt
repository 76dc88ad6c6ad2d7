-- ===== src/Storage/LittleFs/Opening.antt =====
-- firmware/src/littlefs_storage.h: what `begin` does to the file of the ring.
use presence_platform.Prelude.{
  ℕ, zero, suc, ◌+◌, ◌-◌, ◌*◌, ◌/◌, ◌≤◌, ◌<◌, ◌≡◌, ◌≢◌, refl, sym, ap, ◌∙◌, true, false, some,
  Bytes, length, replicate, length-replicate, ==_ne, le→leb, arith,
}
use presence_platform.Punch.{record_size}
use presence_platform.Storage.LittleFs.{
  FileSystem, Entry, LittleFs, ring_min_records, zero_chunk, load_entry, buffer_empty,
  existing_size, next_zeros, fill_zeros, create, open_or_create, drops_file, begin_storage,
}

-- A write at the end of a file makes it longer by what it writes.
pub record IsGrowing (F : FileSystem) : Type 0 where
  pub size-create_empty :
      (d : F.Disk) → (F.create_empty d).0 ≡ true → F.size_of (F.create_empty d).1 ≡ some 0
  pub size-extend :
      (d : F.Disk) (b : Bytes) (n : ℕ)
      → F.size_of d ≡ some n
      → (F.extend d b).0 ≡ length b
      → F.size_of (F.extend d b).1 ≡ some (n + length b)

module _ (F : FileSystem) (N : Entry) where
  buffer_holds :
      (s : LittleFs F N) (head tail : ℕ)
      → load_entry F N (s.disk, s.nvs) ≡ some (head, tail)
      → head ≢ tail
      → buffer_empty F N s.disk s.nvs ≡ false
  unfolding buffer_empty
  buffer_holds s head tail h ne = rw (buffer_empty, h) (==_ne head tail ne)

  begin_kept :
      (s : LittleFs F N)
      → buffer_empty F N s.disk s.nvs ≡ false
      → begin_storage F N s ≡ open_or_create F N (existing_size F N s.disk) s
  unfolding begin_storage drops_file
  begin_kept s h = ground arith

  open_kept :
      (s : LittleFs F N)
      → ring_min_records * record_size ≤ existing_size F N s.disk
      → let n = existing_size F N s.disk in
        ((open_or_create F N n s).0 ≡ F.opens s.disk)
        × ((open_or_create F N n s).1
            ≡ record s { opened = F.opens s.disk; capacity = (n / record_size) * record_size })
  unfolding open_or_create
  open_kept s big = rw (le→leb _ _ big) (refl, refl)

  -- If NVS holds two different cursors and the file has room for at least 256 records, begin
  -- changes neither the disk nor NVS, sets the capacity to the whole records of the file, and
  -- answers whether the file opens.
  pub begin_storage_keeps :
      (s : LittleFs F N) (head tail : ℕ)
      → load_entry F N (s.disk, s.nvs) ≡ some (head, tail)
      → head ≢ tail
      → ring_min_records * record_size ≤ existing_size F N s.disk
      → ((begin_storage F N s).0 ≡ F.opens s.disk)
        × ((begin_storage F N s).1 ≡ record s {
          opened = F.opens s.disk;
          capacity = (existing_size F N s.disk / record_size) * record_size;
        })
  begin_storage_keeps s head tail h ne big =
      rw (begin_kept s (buffer_holds s head tail h ne)) (open_kept s big)

  next_zeros_bounds :
      (n remaining : ℕ)
      → remaining ≤ suc n * zero_chunk
      → (next_zeros F N remaining ≤ remaining)
        × (remaining - next_zeros F N remaining ≤ n * zero_chunk)
  unfolding next_zeros
  next_zeros_bounds n remaining h = ground arith

  fill_zeros_step :
      (n remaining : ℕ) (d : F.Disk)
      → 0 < remaining
      → (fill_zeros F N (suc n) remaining d).0 ≡ true
      → let (written, after) = F.extend d (replicate (next_zeros F N remaining) 0) in
        (written ≡ next_zeros F N remaining)
        × (fill_zeros F N (suc n) remaining d
            ≡ fill_zeros F N n (remaining - next_zeros F N remaining) after)
  unfolding fill_zeros
  fill_zeros_step n remaining d pos h = ground arith

  fill_zeros_done : (n : ℕ) (d : F.Disk) → fill_zeros F N n 0 d ≡ (true, d)
  unfolding fill_zeros
  fill_zeros_done zero d = refl
  fill_zeros_done (suc n) d = refl

  fill_zeros-size :
      IsGrowing F
      → (n remaining size : ℕ) (d : F.Disk) → remaining ≤ n * zero_chunk
      → F.size_of d ≡ some size
      → (fill_zeros F N n remaining d).0 ≡ true
      → F.size_of (fill_zeros F N n remaining d).1 ≡ some (size + remaining)
  fill_zeros-size G n zero size d fuel e h =
      ap (λ x. F.size_of x.1) (fill_zeros_done n d) ∙ e ∙ ap some (omega arith)
  fill_zeros-size G zero (suc k) size d fuel e h = absurd (omega arith)
  fill_zeros-size G (suc n) (suc k) size d fuel e h =
      let chunk = next_zeros F N (suc k) in
      let zeros : Bytes = replicate chunk 0 in
      let (le, left) = next_zeros_bounds n (suc k) fuel in
      let (written, step) = fill_zeros_step n (suc k) d (omega arith) h in
      let same = length-replicate {A = ℕ} chunk 0 in
      let grown : F.size_of (F.extend d zeros).1 ≡ some (size + chunk) =
        G.size-extend d zeros size e (written ∙ sym same) ∙ ap (λ c. some (size + c)) same in
      ap (λ x. F.size_of x.1) step
      ∙ fill_zeros-size G n (suc k - chunk) (size + chunk) (F.extend d zeros).1 left grown
          (ap (λ x. x.0) (sym step) ∙ h)
      ∙ ap some (omega arith)

  -- A file that was made has the capacity that was asked for, is open, and the saved cursors are gone.
  pub create-size :
      IsGrowing F
      → (s : LittleFs F N) → (create F N s).0 ≡ true
      → (F.size_of (create F N s).1.disk ≡ some s.capacity)
        × ((create F N s).1.opened ≡ true)
        × ((create F N s).1.nvs ≡ N.remove_key s.nvs)
  unfolding create
  create-size G s h =
      let empty = (F.create_empty s.disk).1 in
      let rounds = s.capacity / zero_chunk + 1 in
      let made : (F.create_empty s.disk).0 ≡ true = ground arith in
      let filled : (fill_zeros F N rounds s.capacity empty).0 ≡ true = ground arith in
      let size =
        fill_zeros-size G rounds s.capacity 0 empty (omega arith) (G.size-create_empty s.disk made)
          filled in
      (ground (arith, size), ground arith, ground arith)
