-- ===== src/Storage/LittleFs/Reliable.antt =====
-- firmware/src/littlefs_storage.h: `LittleFsStorage` is a storage as the ring needs it.
use presence_platform.Prelude.{
  ℕ, ◌+◌, ◌≤◌, ◌<◌, ◌≡◌, ◌⊎◌, refl, sym, ap, ◌∙◌, Bool, true, some, [], ◌++◌, Bytes, length, take,
  u64_mod, arith, take-append_exact, drop-append_exact, length-append, append-nil,
}
use presence_platform.Punch.{le_bytes, le_value}
use presence_platform.Punch.Layout.{length-le_bytes, le_value-le_bytes}
use presence_platform.Storage.{IsReliable}
use presence_platform.Storage.LittleFs.{
  FileSystem, Entry, reachable, read_file, write_file, save_entry, load_entry, little_fs_storage,
}

-- What LittleFS does to a file that has its full size: a write that succeeds is read back once it is
-- flushed, it leaves the rest of the file alone, and where a seek is possible does not depend on it.
pub record IsFile (F : FileSystem) : Type 0 where
  pub read-write :
      (d : F.Disk) (o : ℕ) (b : Bytes)
      → (F.write d o b).0 ≡ length b
      → F.read (F.flush (F.write d o b).1) o (length b) ≡ b
  pub read-write_apart :
      (d : F.Disk) (o : ℕ) (b : Bytes) (p n : ℕ)
      → (o + length b ≤ p) ⊎ (p + n ≤ o)
      → F.read (F.write d o b).1 p n ≡ F.read d p n
  pub read-flush : (d : F.Disk) (p n : ℕ) → F.read (F.flush d) p n ≡ F.read d p n
  pub seek-write :
      (d : F.Disk) (o : ℕ) (b : Bytes) (p : ℕ) → F.seek (F.write d o b).1 p ≡ F.seek d p
  pub seek-flush : (d : F.Disk) (p : ℕ) → F.seek (F.flush d) p ≡ F.seek d p

-- What NVS does: an entry that is stored whole is loaded.
pub record IsEntry (N : Entry) : Type 0 where
  pub get-put :
      (s : N.Nvs) (b : Bytes)
      → (N.put_bytes s b).0 ≡ length b
      → N.get_bytes (N.put_bytes s b).1 (length b) ≡ b

module _ (F : FileSystem) (N : Entry) (P : IsFile F) (E : IsEntry N) (opened : Bool)
    (capacity : ℕ) where
  abbrev Files : Type 0
  Files = F.Disk × N.Nvs

  after_write :
      (disk : F.Disk) (nvs : N.Nvs) (o : ℕ) (b : Bytes)
      → (write_file F N opened capacity (disk, nvs) o b).1 ≡ true
      → ((F.write disk o b).0 ≡ length b)
        × (reachable F N opened capacity disk o (length b) ≡ true)
        × ((write_file F N opened capacity (disk, nvs) o b).0 ≡ (F.flush (F.write disk o b).1, nvs))
  unfolding write_file
  after_write disk nvs o b h = ground arith

  written-read :
      (disk : F.Disk) (nvs : N.Nvs) (o : ℕ) (b : Bytes)
      → (write_file F N opened capacity (disk, nvs) o b).1 ≡ true
      → read_file F N opened capacity
          (write_file F N opened capacity (disk, nvs) o b).0
          o
          (length b)
        ≡ some b
  unfolding read_file reachable
  written-read disk nvs o b h =
      let (count, reached, after) = after_write disk nvs o b h in
      rw after (
        ground (
          arith,
          P.read-write disk o b count,
          P.seek-flush (F.write disk o b).1 o,
          P.seek-write disk o b o,
        ))

  read_apart :
      (f : Files) (o : ℕ) (b : Bytes) (p n : ℕ)
      → (o + length b ≤ p) ⊎ (p + n ≤ o)
      → read_file F N opened capacity (write_file F N opened capacity f o b).0 p n
        ≡ read_file F N opened capacity f p n
  unfolding read_file reachable write_file
  read_apart (disk, nvs) o b p n h = ground (
    arith,
    P.read-flush (F.write disk o b).1 p n,
    P.read-write_apart disk o b p n h,
    P.seek-flush (F.write disk o b).1 p,
    P.seek-write disk o b p,
  )

  load_after_write :
      (f : Files) (o : ℕ) (b : Bytes)
      → load_entry F N (write_file F N opened capacity f o b).0 ≡ load_entry F N f
  unfolding load_entry write_file
  load_after_write (disk, nvs) o b = ground arith

  pair_bytes : (h t : ℕ) → length (le_bytes 8 h ++ le_bytes 8 t) ≡ 16
  pair_bytes h t =
      omega (
        arith,
        length-append (le_bytes 8 h) (le_bytes 8 t),
        length-le_bytes 8 h,
        length-le_bytes 8 t,
      )

  load-save_entry :
      (f : Files) (h t : ℕ)
      → h < u64_mod
      → t < u64_mod
      → (save_entry F N f h t).1 ≡ true
      → load_entry F N (save_entry F N f h t).0 ≡ some (h, t)
  unfolding save_entry load_entry
  load-save_entry (disk, nvs) h t hh ht saved =
      let pair = le_bytes 8 h ++ le_bytes 8 t in
      let size = pair_bytes h t in
      let stored : (N.put_bytes nvs pair).0 ≡ length pair = ground (arith, size) in
      let back : N.get_bytes (N.put_bytes nvs pair).1 16 ≡ pair =
        ap (N.get_bytes (N.put_bytes nvs pair).1) (sym size) ∙ E.get-put nvs pair stored in
      rw
        (
          back,
          size,
          take-append_exact (le_bytes 8 h) (le_bytes 8 t) 8 (length-le_bytes 8 h),
          drop-append_exact (le_bytes 8 h) (le_bytes 8 t) 8 (length-le_bytes 8 h),
          le_value-le_bytes 8 h (omega arith),
        )
        (ap (λ x. some (h, x))
          (ap le_value (
              ap (take 8) (sym (append-nil (le_bytes 8 t)))
              ∙ take-append_exact (le_bytes 8 t) [] 8 (length-le_bytes 8 t))
            ∙ le_value-le_bytes 8 t (omega arith)))

  read_after_save :
      (f : Files) (h t o n : ℕ)
      → read_file F N opened capacity (save_entry F N f h t).0 o n
        ≡ read_file F N opened capacity f o n
  unfolding read_file save_entry
  read_after_save (disk, nvs) h t o n = refl

  -- Over a file system and an entry of NVS that give back what they took and leave the rest of
  -- the file alone, the storage of littlefs_storage.h, whether its file is open and whatever
  -- its capacity, keeps what the ring relies on.
  pub little_fs_storage-IsReliable : IsReliable (little_fs_storage F N opened capacity)
  little_fs_storage-IsReliable = record {
    read-write = λ (disk, nvs) o b fits written. written-read disk nvs o b written;
    read-write_apart = read_apart;
    load-write = load_after_write;
    read-save = λ f h t o n. read_after_save f h t o n;
    load-save = load-save_entry;
  }
