-- ===== src/Hex.antt =====
-- firmware/src/canonical.h: `toHex`; firmware/src/ota_verify.h: `decodeHexExact`.
pub mod Decoding
use presence_platform.Prelude.{
  ℕ, zero, suc, ◌+◌, ◌-◌, ◌*◌, ◌/◌, ◌%◌, Bool, true, false, ◌&&◌, Option, none, some, [], ◌∷◌,
  Bytes, length, ◌==◌, ltb, leb, if◌then◌else◌, to_size,
}

-- `kHex[v]`
unfoldable pub hex_digit : ℕ → ℕ
hex_digit v = if ltb v 10 then b'0' + v else b'a' + (v - 10)

-- `data[i] >> 4` and `data[i] & 0x0F` of a byte.
unfoldable pub to_hex : Bytes → Bytes
to_hex [] = []
to_hex (b ∷ bs) = hex_digit (b / 16) ∷ hex_digit (b % 16) ∷ to_hex bs

-- `none` is -1.
unfoldable pub nibble : ℕ → Option ℕ
nibble c =
    if leb b'0' c && leb c b'9'
    then some (c - b'0')
    else if leb b'a' c && leb c b'f'
    then some (c - b'a' + 10)
    else if leb b'A' c && leb c b'F'
    then some (c - b'A' + 10)
    else none

-- `out[i] = (hi << 4) | lo`, in front of the bytes behind it.
unfoldable pub put_byte : Option ℕ → Option ℕ → Option Bytes → Option Bytes
put_byte (some hi) (some lo) (some rest) = some ((hi * 16 + lo) ∷ rest)
put_byte _ _ _ = none

-- The loop over the pairs of digits.
unfoldable pub decode_pairs : Bytes → Option Bytes
decode_pairs [] = some []
decode_pairs (c ∷ []) = none
decode_pairs (h ∷ (l ∷ rest)) = put_byte (nibble h) (nibble l) (decode_pairs rest)

unfoldable pub decode_hex_exact : Bytes → ℕ → Option Bytes
decode_hex_exact hex out_len =
    if length hex == to_size (out_len * 2) then decode_pairs hex else none
