-- ===== src/Ota/Version.antt =====
-- firmware/src/ota_verify.h: `otaVersionCode`, `parseOtaVersion`, `formatOtaVersion`.
pub mod Digits
pub mod Parts
pub mod RoundTrip
use presence_platform.Prelude.{
  ℕ, suc, ◌+◌, ◌-◌, ◌*◌, ◌/◌, ◌%◌, ◌^◌, Bool, true, false, ◌&&◌, ◌||◌, not, Option, none, some, [],
  ◌∷◌, ◌++◌, Bytes, length, ◌==◌, ltb, leb, if◌then◌else◌, u32_mod, u64_mod, codes,
}
use presence_platform.Decimal.{json_int}

-- `UINT64_MAX`
abbrev pub invalid_ota_version : ℕ
invalid_ota_version = 2 ^ 64 - 1

abbrev pub ota_version_max_len : ℕ
ota_version_max_len = 17

unfoldable pub is_digit : ℕ → Bool
is_digit c = leb b'0' c && leb c b'9'

infixl 5 ◌>>=◌
abbrev pub ◌>>=◌ {ℓ κ} : {A : Type ℓ} {B : Type κ} → Option A → (A → Option B) → Option B
none >>= f = none
some a >>= f = f a

-- The inner loop: the value and the text behind its digits; `none` after a sixth digit.
unfoldable pub read_digits : Bytes → ℕ → ℕ → Option (ℕ × Bytes)
read_digits [] v n = some (v, [])
read_digits (c ∷ cs) v n =
    let rest = read_digits cs ((v * 10 + (c - b'0')) % u32_mod) (n + 1) in
    if is_digit c then (if ltb 5 (n + 1) then none else rest) else some (v, c ∷ cs)

unfoldable pub starts_with_digit : Bytes → Bool
starts_with_digit [] = false
starts_with_digit (c ∷ cs) = is_digit c

-- One round of `for (int part = 0; ...)` up to the dot.
unfoldable pub read_part : Bytes → Option (ℕ × Bytes)
read_part [] = none
read_part (c ∷ cs) =
    if not (is_digit c)
    then none
    else if c == b'0' && starts_with_digit cs
    then none
    else (do (v, rest) ← read_digits (c ∷ cs) 0 0; if ltb 65535 v then none else some (v, rest))

unfoldable pub expect_dot : Bytes → Option Bytes
expect_dot [] = none
expect_dot (c ∷ cs) = if c == b'.' then some cs else none

unfoldable pub expect_end : Bytes → ℕ → Option ℕ
expect_end [] code = some code
expect_end (c ∷ cs) code = none

-- `code = (code << 16) | v`: the low 16 bits are clear, so the bitwise or adds.
unfoldable pub push_part : ℕ → ℕ → ℕ
push_part code v = (code * 2 ^ 16) % u64_mod + v

unfoldable pub read_version : Bytes → Option ℕ
read_version s = do
  (major, s1) ← read_part s
  s2 ← expect_dot s1
  (minor, s3) ← read_part s2
  s4 ← expect_dot s3
  (patch, s5) ← read_part s4
  expect_end s5 (push_part (push_part (push_part 0 major) minor) patch)

unfoldable pub code_or_invalid : Option ℕ → ℕ
code_or_invalid none = invalid_ota_version
code_or_invalid (some code) = code

unfoldable pub ota_version_code : Bytes → ℕ
ota_version_code s =
    if length s == 0 || ltb ota_version_max_len (length s)
    then invalid_ota_version
    else code_or_invalid (read_version s)

-- `none` is the result `false`.
unfoldable pub parse_ota_version : Bytes → Option ℕ
parse_ota_version s =
    let code = ota_version_code s in if code == invalid_ota_version then none else some code

unfoldable pub format_ota_version : ℕ → Bytes
format_ota_version code =
    if code == invalid_ota_version
    then codes "invalid"
    else json_int (code / 2 ^ 32 % 2 ^ 16)
      ++ (b'.' ∷ (json_int (code / 2 ^ 16 % 2 ^ 16) ++ (b'.' ∷ json_int (code % 2 ^ 16))))
