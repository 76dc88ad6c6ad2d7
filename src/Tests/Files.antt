-- ===== src/Tests/Files.antt =====
-- `LittleFsStorage` over a file in memory and an entry that holds what was put.
use presence_platform.Prelude.{
  ℕ, ◌*◌, ◌/◌, ◌≡◌, refl, true, false, some, [], ◌∷◌, ◌++◌, Bytes, length, replicate, arith,
}
use presence_platform.Punch.{record_size, le_value}
use presence_platform.Storage.{IsReliable}
use presence_platform.Storage.Memory.{slice, overlay, slice_ext, overlay_apart, slice-overlay}
use presence_platform.Storage.LittleFs.{
  FileSystem, Entry, LittleFs, little_fs_storage, existing_size, load_entry, begin_storage,
}
use presence_platform.Storage.LittleFs.Reliable.{IsFile, IsEntry, little_fs_storage-IsReliable}
use presence_platform.Storage.LittleFs.Opening.{begin_storage_keeps}

abbrev file_system : FileSystem
file_system = record {
  Disk = ℕ → ℕ;
  total_bytes = λ d. 1048576;
  used_bytes = λ d. 20000;
  exists = λ d. true;
  size_of = λ d. some 15370;
  remove = λ d. (true, λ a. 0);
  opens = λ d. true;
  create_empty = λ d. (true, λ a. 0);
  extend = λ d b. (length b, d);
  seek = λ d o. true;
  read = λ d o n. slice d o n;
  write = λ d o b. (length b, overlay d o b);
  flush = λ d. d;
}

abbrev entry : Entry
entry = record {
  Nvs = Bytes;
  get_bytes = λ s n. s;
  put_bytes = λ s b. (length b, b);
  remove_key = λ s. [];
}

file_system-IsFile : IsFile file_system
file_system-IsFile = record {
  read-write = λ d o b h. slice-overlay d o b;
  read-write_apart = λ d o b p n h.
      slice_ext (overlay d o b) d p n (λ a lo hi. overlay_apart d o b a (grind arith));
  read-flush = λ d p n. refl;
  seek-write = λ d o b p. refl;
  seek-flush = λ d p. refl;
}

entry-IsEntry : IsEntry entry
entry-IsEntry = record { get-put = λ s b h. refl }

little_fs_storage-IsReliable_example : IsReliable (little_fs_storage file_system entry true 15360)
little_fs_storage-IsReliable_example =
    little_fs_storage-IsReliable file_system entry file_system-IsFile entry-IsEntry true 15360

-- Five records wait in a file of 256.
abbrev held_files : LittleFs file_system entry
held_files = record {
  disk = λ a. 0;
  nvs = (9 ∷ replicate 7 0) ++ (4 ∷ replicate 7 0);
  opened = false;
  capacity = 0;
}

held_cursors : load_entry file_system entry (held_files.disk, held_files.nvs) ≡ some (9, 4)
unfolding load_entry le_value
held_cursors = refl

held_size : existing_size file_system entry held_files.disk ≡ 15370
unfolding existing_size
held_size = refl

begin_storage_keeps_example :
    ((begin_storage file_system entry held_files).0 ≡ true)
    × ((begin_storage file_system entry held_files).1 ≡ record held_files {
      opened = true;
      capacity = (existing_size file_system entry held_files.disk / record_size) * record_size;
    })
begin_storage_keeps_example =
    begin_storage_keeps file_system entry held_files 9 4 held_cursors (omega arith)
      (omega (arith, held_size))
