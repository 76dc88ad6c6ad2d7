-- ===== src/Sizing/Budget.antt =====
-- The block budget that `ringCapacityBytes` keeps, and why a file that it sizes can be rewritten.
use presence_platform.Prelude.{
  ℕ, ◌+◌, ◌-◌, ◌*◌, ◌/◌, ◌≤◌, ◌<◌, ◌≡◌, ◌≢◌, true, refl, arith, size_mod, to_size,
}
use native.Mathlib.Nat.{div-lt_iff_lt-mul}
use presence_platform.Sizing.{
  blocks_of, metadata_blocks, ring_blocks, ring_capacity_bytes, ring_file_rewritable,
}

-- A filesystem whose bytes a `size_t` can count, and a slack that fits beside its blocks.
pub record Geometry (block_size block_count slack_blocks : ℕ) : Type 0 where
  pub addressable : block_size * block_count + block_size < size_mod
  pub slack_fits : block_count + slack_blocks + block_count < size_mod

-- `(x + d - 1) / d` blocks of `d` bytes hold `x` bytes, and no fewer than are needed.
blocks_of-le : (x d q : ℕ) → 0 < d → x + d < size_mod → x ≤ q * d → blocks_of x d ≤ q
unfolding blocks_of
blocks_of-le x d q hd hx h =
    let whole : to_size (x + d - 1) ≡ x + d - 1 = omega arith in
    let below : (x + d - 1) / d < q + 1 = (div-lt_iff_lt-mul hd).1 (grind arith) in
    rw whole (omega arith)

-- What the capacity is made of.
pub record Sized (block_size block_count used existing slack least capacity : ℕ) : Type 0 where
  pub metadata : ℕ
  pub records : ℕ
  pub metadata_eq : metadata ≡ metadata_blocks block_size used existing
  pub whole_records : capacity ≡ records * 60
  pub enough : (least ≤ records) × (0 < records)
  pub usable : 8 < block_size
  pub used_within : blocks_of used block_size ≤ block_count
  pub spare : metadata + slack < block_count
  pub fits : records * 60 ≤ (block_count - metadata - slack) / 2 * (block_size - 8)

module _ (bs bc used existing slack least : ℕ) (g : Geometry bs bc slack) where
  metadata-le : metadata_blocks bs used existing ≤ blocks_of used bs
  unfolding metadata_blocks
  metadata-le = omega arith

  ring_bytes_fit : (m : ℕ) → (bc - m - slack) / 2 * (bs - 8) + bs < size_mod
  ring_bytes_fit m = grind (arith, g.addressable)

  sized :
      ring_capacity_bytes bs bc used existing slack least ≢ 0
      → Sized bs bc used existing slack least (ring_capacity_bytes bs bc used existing slack least)
  unfolding ring_capacity_bytes ring_blocks
  sized h = record {
    metadata = m;
    records = n;
    metadata_eq = refl;
    whole_records = ground (arith, ring_bytes_fit m);
    enough = ground arith;
    usable = ground arith;
    used_within = ground arith;
    spare = ground (arith, metadata-le, g.slack_fits);
    fits = ground (arith, ring_bytes_fit m);
  }
    where
      m : ℕ
      m = metadata_blocks bs used existing

      n : ℕ
      n = to_size ((bc - m - slack) / 2 * (bs - 8)) / 60

  file_blocks-le :
      {c : ℕ}
      → Sized bs bc used existing slack least c
      → blocks_of c (bs - 8) ≤ (bc - metadata_blocks bs used existing - slack) / 2
  file_blocks-le z =
      blocks_of-le _ (bs - 8) ((bc - metadata_blocks bs used existing - slack) / 2)
        (omega (arith, z)) (omega (arith, z, ring_bytes_fit z.metadata))
        (rw (z.whole_records, ← z.metadata_eq) z.fits)

-- On such a filesystem a file of a capacity that the sizing returned and that is not 0 passes
-- `ringFileRewritable`, whatever is on the filesystem by then, if the blocks used are at most
-- the metadata's and the file's.
pub created_rewritable :
    (bs bc used existing slack least used2 : ℕ)
    → Geometry bs bc slack
    → ring_capacity_bytes bs bc used existing slack least ≢ 0
    → let c = ring_capacity_bytes bs bc used existing slack least in
      blocks_of used2 bs ≤ metadata_blocks bs used existing + blocks_of c (bs - 8)
      → ring_file_rewritable bs bc used2 c slack ≡ true
unfolding ring_file_rewritable
created_rewritable bs bc used existing slack least used2 g h e =
    let z = sized bs bc used existing slack least g h in
    ground (arith, z, file_blocks-le bs bc used existing slack least g z, g.slack_fits)
