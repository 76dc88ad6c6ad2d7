-- ===== src/Sizing.antt =====
-- firmware/src/ring_buffer.h: `ringCapacityBytes` and `ringFileRewritable`, on a 32-bit `size_t`.
pub mod Budget
use presence_platform.Prelude.{
  ℕ, ◌+◌, ◌-◌, ◌*◌, ◌/◌, Bool, true, false, ◌||◌, ◌==◌, ltb, leb, if◌then◌else◌, to_size,
}
use presence_platform.Punch.{record_size}

abbrev pub lfs_ctz_overhead_per_block : ℕ
lfs_ctz_overhead_per_block = 8

-- `(x + d - 1) / d`
unfoldable pub blocks_of : ℕ → ℕ → ℕ
blocks_of x d = to_size (x + d - 1) / d

-- `usedBlocks - reclaim`
unfoldable pub metadata_blocks : ℕ → ℕ → ℕ → ℕ
unfolding blocks_of
metadata_blocks block_size used_bytes existing_bytes =
    let used = blocks_of used_bytes block_size in
    let held = existing_bytes / block_size in used - (if ltb used held then used else held)

-- The ring's blocks, of what metadata and slack leave.
unfoldable pub ring_blocks : ℕ → ℕ → ℕ → ℕ
ring_blocks block_count metadata slack_blocks = (block_count - metadata - slack_blocks) / 2

unfoldable pub ring_capacity_bytes : ℕ → ℕ → ℕ → ℕ → ℕ → ℕ → ℕ
ring_capacity_bytes block_size block_count used_bytes existing_bytes slack_blocks min_records =
    let metadata = metadata_blocks block_size used_bytes existing_bytes in
    let blocks = ring_blocks block_count metadata slack_blocks in
    let records = to_size (blocks * (block_size - lfs_ctz_overhead_per_block)) / record_size in
    if leb block_size lfs_ctz_overhead_per_block || block_count == 0
    then 0
    else if ltb block_count (blocks_of used_bytes block_size)
    then 0
    else if leb block_count (to_size (metadata + slack_blocks))
    then 0
    else if records == 0 || ltb records min_records
    then 0
    else to_size (records * record_size)

unfoldable pub ring_file_rewritable : ℕ → ℕ → ℕ → ℕ → ℕ → Bool
ring_file_rewritable block_size block_count used_bytes file_bytes slack_blocks =
    let used = blocks_of used_bytes block_size in
    let per_block = block_size - lfs_ctz_overhead_per_block in
    let file_blocks = blocks_of file_bytes per_block in
    if leb block_size lfs_ctz_overhead_per_block
    then false
    else if ltb block_count used
    then false
    else leb (to_size (file_blocks + slack_blocks)) (block_count - used)
