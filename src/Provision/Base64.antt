-- ===== src/Provision/Base64.antt =====
-- firmware/src/provision.h: `base64Value` and `decodeBase64Exact`. The length of the output fits a
-- `size_t` with room to spare in every call, so its sums are written without a wrap.
pub mod Canonical
pub mod Exact
pub mod Groups
pub mod Unique
use presence_platform.Prelude.{
  ℕ, zero, suc, ◌+◌, ◌-◌, ◌*◌, ◌/◌, ◌%◌, ◌^◌, Bool, true, false, not, ◌&&◌, ◌||◌, Option, none,
  some, [], ◌∷◌, ◌++◌, Bytes, length, ◌==◌, ltb, leb, if◌then◌else◌,
}

-- `none` is -1.
unfoldable pub base64_value : ℕ → Option ℕ
base64_value c =
    if leb b'A' c && leb c b'Z'
    then some (c - b'A')
    else if leb b'a' c && leb c b'z'
    then some (c - b'a' + 26)
    else if leb b'0' c && leb c b'9'
    then some (c - b'0' + 52)
    else if c == b'+'
    then some 62
    else if c == b'/'
    then some 63
    else none

-- `padSlot != (in[i] == '=')` nowhere; the slots before the padding are `left` many.
unfoldable pub pads_ok : ℕ → Bytes → Bool
pads_ok left [] = true
pads_ok zero (c ∷ cs) = c == b'=' && pads_ok zero cs
pads_ok (suc left) (c ∷ cs) = not (c == b'=') && pads_ok left cs

-- The loop over the characters of a group: `acc` and `bits` at its end, or a bad character. Four
-- characters are at most 24 bits, so `acc` does not wrap.
unfoldable pub read_group : Bytes → ℕ → ℕ → Option (ℕ × ℕ)
read_group [] acc bits = some (acc, bits)
read_group (c ∷ cs) acc bits =
    if c == b'='
    then some (acc, bits)
    else elim (base64_value c) [ none ↦ none | some v ↦ read_group cs (acc * 64 + v) (bits + 6) ]

-- `while (bits >= 8)`, which runs `bits / 8` times.
unfoldable pub drain : ℕ → ℕ → ℕ → Bytes
drain zero acc bits = []
drain (suc rounds) acc bits = (acc / 2 ^ (bits - 8) % 256) ∷ drain rounds acc (bits - 8)

-- The bytes of a group, unless the bits that are left are not 0.
unfoldable pub group_bytes : Option (ℕ × ℕ) → Option Bytes
group_bytes none = none
group_bytes (some (acc, bits)) =
    if ltb 0 (bits % 8) && not (acc % 2 ^ (bits % 8) == 0)
    then none
    else some (drain (bits / 8) acc bits)

unfoldable pub join : Option Bytes → Option Bytes → Option Bytes
join (some xs) (some ys) = some (xs ++ ys)
join _ _ = none

-- The loop over the groups of four characters.
unfoldable pub decode_groups : Bytes → Option Bytes
decode_groups (a ∷ (b ∷ (c ∷ (d ∷ rest)))) =
    join (group_bytes (read_group (a ∷ b ∷ c ∷ d ∷ []) 0 0)) (decode_groups rest)
decode_groups _ = some []

unfoldable pub pad_chars : ℕ → ℕ
pad_chars out_len = if out_len % 3 == 0 then 0 else 3 - out_len % 3

-- More bytes than `outLen`, and fewer, are both refused.
unfoldable pub exactly : ℕ → Option Bytes → Option Bytes
exactly n none = none
exactly n (some bs) = if length bs == n then some bs else none

unfoldable pub decode_base64_exact : Bytes → ℕ → Option Bytes
decode_base64_exact text out_len =
    let want = (out_len + 2) / 3 * 4 in
    if not (length text == want) || out_len == 0
    then none
    else if not (pads_ok (want - pad_chars out_len) text)
    then none
    else exactly out_len (decode_groups text)
