-- ===== src/Prelude/Words.antt =====
-- The unsigned integer types of the ESP32 build: `uint8_t`, `uint32_t`, `uint64_t`, and `size_t`,
-- which has 32 bits there. A value is a native number; arithmetic wraps by `%`.
use Prim.Native.Nat.{ℕ, ◌+◌, ◌-◌, ◌%◌, ◌^◌}

abbrev pub u8_mod : ℕ
u8_mod = 2 ^ 8

abbrev pub u32_mod : ℕ
u32_mod = 2 ^ 32

abbrev pub u64_mod : ℕ
u64_mod = 2 ^ 64

abbrev pub size_mod : ℕ
size_mod = 2 ^ 32

abbrev pub to_size : ℕ → ℕ
to_size x = x % size_mod

abbrev pub add_u64 : ℕ → ℕ → ℕ
add_u64 a b = (a + b) % u64_mod

abbrev pub sub_u64 : ℕ → ℕ → ℕ
sub_u64 a b = (a + u64_mod - b) % u64_mod

abbrev pub sub_u32 : ℕ → ℕ → ℕ
sub_u32 a b = (a + u32_mod - b) % u32_mod
