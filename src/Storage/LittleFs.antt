-- ===== src/Storage/LittleFs.antt =====
-- firmware/src/littlefs_storage.h: class `LittleFsStorage`. LittleFS and NVS are the parameters
-- `FileSystem`, with the one path of the class, and `Entry`, with its one key.
pub mod Opening
pub mod Reliable
use presence_platform.Prelude.{
  ℕ, zero, suc, ◌+◌, ◌-◌, ◌*◌, ◌/◌, Bool, true, false, not, ◌&&◌, ◌||◌, Option, none, some, ◌++◌,
  Bytes, length, take, drop, replicate, ◌==◌, ltb, leb, if◌then◌else◌, to_size,
}
use presence_platform.Punch.{record_size, le_bytes, le_value}
use presence_platform.Sizing.{ring_capacity_bytes, ring_file_rewritable}
use presence_platform.Storage.{Storage}

-- `LittleFS`, and a `File` open for reading and writing.
pub record FileSystem : Type 1 where
  pub Disk : Type 0
  pub total_bytes : Disk → ℕ
  pub used_bytes : Disk → ℕ
  pub exists : Disk → Bool
  -- the size of the file, opened with "r"
  pub size_of : Disk → Option ℕ
  pub remove : Disk → Bool × Disk
  -- opened with "r+"
  pub opens : Disk → Bool
  -- opened with "w", and a `write` at the end of the file so opened: the bytes it has written
  pub create_empty : Disk → Bool × Disk
  pub extend : Disk → Bytes → ℕ × Disk
  pub seek : Disk → ℕ → Bool
  pub read : Disk → ℕ → ℕ → Bytes
  pub write : Disk → ℕ → Bytes → ℕ × Disk
  pub flush : Disk → Disk

-- The entry `ring_cursors` of `Preferences`.
pub record Entry : Type 1 where
  pub Nvs : Type 0
  -- `getBytes` into a buffer of that length
  pub get_bytes : Nvs → ℕ → Bytes
  pub put_bytes : Nvs → Bytes → ℕ × Nvs
  pub remove_key : Nvs → Nvs

abbrev pub lfs_block_size : ℕ
lfs_block_size = 4096

abbrev pub ring_slack_blocks : ℕ
ring_slack_blocks = 2

abbrev pub ring_min_records : ℕ
ring_min_records = 256

-- `sizeof(zeros)`, eight records.
abbrev pub zero_chunk : ℕ
zero_chunk = record_size * 8

module _ (F : FileSystem) (N : Entry) where
  pub record LittleFs : Type 0 where
    pub disk : F.Disk
    pub nvs : N.Nvs
    -- `file_` is open
    pub opened : Bool
    pub capacity : ℕ

  -- `offset + len <= capacity_`, and the seek.
  unfoldable pub reachable : Bool → ℕ → F.Disk → ℕ → ℕ → Bool
  reachable opened capacity disk offset len =
      opened && leb (to_size (offset + len)) capacity && F.seek disk offset

  unfoldable pub read_file : Bool → ℕ → F.Disk × N.Nvs → ℕ → ℕ → Option Bytes
  read_file opened capacity (disk, nvs) offset len =
      let bytes = F.read disk offset len in
      if reachable opened capacity disk offset len && length bytes == len then some bytes else none

  unfoldable pub write_file : Bool → ℕ → F.Disk × N.Nvs → ℕ → Bytes → (F.Disk × N.Nvs) × Bool
  write_file opened capacity (disk, nvs) offset src =
      let (written, after) = F.write disk offset src in
      if not (reachable opened capacity disk offset (length src))
      then ((disk, nvs), false)
      else if written == length src
      then ((F.flush after, nvs), true)
      else ((after, nvs), false)

  unfoldable pub save_entry : F.Disk × N.Nvs → ℕ → ℕ → (F.Disk × N.Nvs) × Bool
  save_entry (disk, nvs) head tail =
      let (stored, after) = N.put_bytes nvs (le_bytes 8 head ++ le_bytes 8 tail) in
      ((disk, after), stored == 16)

  unfoldable pub load_entry : F.Disk × N.Nvs → Option (ℕ × ℕ)
  load_entry (disk, nvs) =
      let bytes = N.get_bytes nvs 16 in
      if length bytes == 16
      then some (le_value (take 8 bytes), le_value (take 8 (drop 8 bytes)))
      else none

  -- The storage that an object is after `begin`.
  abbrev pub little_fs_storage : Bool → ℕ → Storage
  little_fs_storage opened capacity = record {
    Flash = F.Disk × N.Nvs;
    capacity_bytes = capacity;
    read_at = read_file opened capacity;
    write_at = write_file opened capacity;
    save_cursors = save_entry;
    load_cursors = load_entry;
  }

  unfoldable pub records : LittleFs → ℕ
  records s = s.capacity / record_size

  -- `bufferEmpty()`
  unfoldable pub buffer_empty : F.Disk → N.Nvs → Bool
  buffer_empty disk nvs = elim (load_entry (disk, nvs)) [
    | none ↦ true
    | some (head, tail) ↦ head == tail
  ]

  unfoldable pub existing_size : F.Disk → ℕ
  existing_size disk = if F.exists disk then elim (F.size_of disk) [ none ↦ 0 | some n ↦ n ] else 0

  -- `remaining < sizeof(zeros) ? remaining : sizeof(zeros)`
  unfoldable pub next_zeros : ℕ → ℕ
  next_zeros remaining = if ltb remaining zero_chunk then remaining else zero_chunk

  -- The loop of `create`; fuel for one round per chunk.
  unfoldable pub fill_zeros : ℕ → ℕ → F.Disk → Bool × F.Disk
  fill_zeros zero remaining disk = (true, disk)
  fill_zeros (suc n) remaining disk =
      let chunk = next_zeros remaining in
      let (written, after) = F.extend disk (replicate chunk 0) in
      elim (ltb 0 remaining) [
        | false ↦ (true, disk)
        | true ↦ elim (written == chunk) [
          | false ↦ (false, after)
          | true ↦ fill_zeros n (remaining - chunk) after
        ]
      ]

  unfoldable pub create : LittleFs → Bool × LittleFs
  create s =
      let (made, empty) = F.create_empty s.disk in
      let (filled, disk) = fill_zeros (s.capacity / zero_chunk + 1) s.capacity empty in
      if not made
      then (false, record s { disk = empty })
      else if not filled
      then (false, record s { disk = disk })
      else (F.opens disk, record s { disk = disk; nvs = N.remove_key s.nvs; opened = F.opens disk })

  -- `begin` once it is settled how large the file is that stays.
  unfoldable pub open_or_create : ℕ → LittleFs → Bool × LittleFs
  open_or_create existing s =
      let blocks = F.total_bytes s.disk / lfs_block_size in
      let capacity =
        ring_capacity_bytes lfs_block_size blocks (F.used_bytes s.disk) existing ring_slack_blocks
          ring_min_records in
      if leb (ring_min_records * record_size) existing
      then (
        F.opens s.disk,
        record s { capacity = (existing / record_size) * record_size; opened = F.opens s.disk },
      )
      else if capacity == 0
      then (false, record s { capacity = 0 })
      else create (record s { capacity = capacity })

  -- The test for a file that `begin` drops.
  unfoldable pub drops_file : F.Disk → N.Nvs → Bool
  drops_file disk nvs =
      let existing = existing_size disk in
      let blocks = F.total_bytes disk / lfs_block_size in
      leb (ring_min_records * record_size) existing
      && not (
          ring_file_rewritable lfs_block_size blocks (F.used_bytes disk) existing ring_slack_blocks)
      && buffer_empty disk nvs

  unfoldable pub begin_storage : LittleFs → Bool × LittleFs
  begin_storage s =
      let (removed, disk) = F.remove s.disk in
      if drops_file s.disk s.nvs
      then (if removed
          then open_or_create 0 (record s { disk = disk })
          else (false, record s { disk = disk }))
      else open_or_create (existing_size s.disk) s
