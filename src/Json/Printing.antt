-- ===== src/Json/Printing.antt =====
-- Flat JSON objects, printed without spaces: what the readers are compared with.
use presence_platform.Prelude.{
  ℕ, Bool, true, false, not, ◌&&◌, Option, none, some, List, [], ◌∷◌, ◌++◌, Bytes, bytes_eq, codes,
  ◌==◌, leb, if◌then◌else◌,
}
use presence_platform.Decimal.{json_int}
use presence_platform.Json.{quoted}

-- A number is its 64-bit pattern.
pub data Value : Type 0 where
  number : ℕ → Value
  flag : Bool → Value
  text : Bytes → Value

abbrev pub Fields : Type 0
Fields = List (Bytes × Value)

unfoldable pub print_value : Value → Bytes
unfolding quoted
print_value (number w) = json_int w
print_value (flag true) = codes "true"
print_value (flag false) = codes "false"
print_value (text s) = quoted s

-- The fields with a `,` between two, and the closing brace.
unfoldable pub print_fields : Fields → Bytes
unfolding quoted
print_fields [] = b'}' ∷ []
print_fields ((k, v) ∷ []) = quoted k ++ b':' ∷ (print_value v ++ b'}' ∷ [])
print_fields ((k, v) ∷ (f ∷ fs)) =
    quoted k ++ b':' ∷ (print_value v ++ b',' ∷ print_fields (f ∷ fs))

unfoldable pub print_object : Fields → Bytes
print_object fs = b'{' ∷ print_fields fs

unfoldable pub lookup : Bytes → Fields → Option Value
lookup key [] = none
lookup key ((k, v) ∷ fs) = let rest = lookup key fs in if bytes_eq key k then some v else rest

-- A byte that a JSON string holds as it is.
unfoldable pub is_plain : ℕ → Bool
is_plain c = leb 0x20 c && not (c == b'"') && not (c == b'\\')

unfoldable pub all_plain : Bytes → Bool
all_plain [] = true
all_plain (c ∷ cs) = is_plain c && all_plain cs

unfoldable pub plain_value : Value → Bool
plain_value (text s) = all_plain s
plain_value (number w) = true
plain_value (flag b) = true

-- Keys and texts need no escapes.
unfoldable pub plain_fields : Fields → Bool
plain_fields [] = true
plain_fields ((k, v) ∷ fs) = all_plain k && plain_value v && plain_fields fs

-- A key that begins with a letter.
unfoldable pub is_key : Bytes → Bool
is_key [] = false
is_key (c ∷ cs) = leb b'a' c && leb c b'z' && all_plain cs
