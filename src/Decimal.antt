-- ===== src/Decimal.antt =====
-- firmware/src/events_json.h: `jsonInt`, the decimal writer of an `int64_t`, given as its 64-bit
-- pattern. On the host `std::to_string` writes the same digits.
pub mod Laws
use presence_platform.Prelude.{
  ℕ, zero, suc, ◌+◌, ◌-◌, ◌/◌, ◌%◌, ◌^◌, [], ◌∷◌, ◌++◌, Bytes, ◌==◌, leb, if◌then◌else◌,
}

-- The loop that fills `tmp`, the low digit first; the fuel is `sizeof(tmp) - n`.
unfoldable pub low_digits : ℕ → ℕ → Bytes
low_digits zero x = []
low_digits (suc fuel) x =
    let rest = low_digits fuel (x / 10) in if x == 0 then [] else (b'0' + x % 10) ∷ rest

-- `while (n > 0) out.push_back(tmp[--n])`
unfoldable pub reversed : Bytes → Bytes
reversed [] = []
reversed (d ∷ ds) = reversed ds ++ d ∷ []

-- The digits of a positive value.
unfoldable pub digits : ℕ → Bytes
digits x = reversed (low_digits 20 x)

unfoldable pub json_int : ℕ → Bytes
json_int w =
    if w == 0 then b'0' ∷ [] else if leb (2 ^ 63) w then b'-' ∷ digits (2 ^ 64 - w) else digits w
