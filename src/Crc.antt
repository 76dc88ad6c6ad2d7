-- ===== src/Crc.antt =====
-- firmware/src/crc32.cpp: the bitwise CRC-32 of a record.
use Prim.Native.Nat.{bit_and, bit_xor}
use presence_platform.Prelude.{
  ℕ, zero, suc, ◌-◌, ◌/◌, ◌^◌, ◌<◌, [], ◌∷◌, Bytes, sub_u32, u32_mod, arith,
}

-- One round of the inner loop: `mask = -(crc & 1)`, then shift and conditional xor.
crc_bit : ℕ → ℕ
crc_bit crc = let mask = sub_u32 0 (bit_and crc 1) in bit_xor (crc / 2) (bit_and 0xEDB88320 mask)

-- `for (int bit = 0; bit < 8; bit++)`, counted by the rounds left.
crc_bits : ℕ → ℕ → ℕ
crc_bits zero crc = crc
crc_bits (suc n) crc = crc_bits n (crc_bit crc)

crc_loop : ℕ → Bytes → ℕ
crc_loop crc [] = crc
crc_loop crc (b ∷ bs) = crc_loop (crc_bits 8 (bit_xor crc b)) bs

-- The result `~crc` of a 32-bit value is `2 ^ 32 - 1 - crc`.
unfoldable pub crc32 : Bytes → ℕ
unfolding crc_bit crc_bits crc_loop
crc32 bs = u32_mod - 1 - crc_loop 0xFFFFFFFF bs

pub crc32-lt : (bs : Bytes) → crc32 bs < 2 ^ 32
unfolding crc32
crc32-lt bs = omega arith
