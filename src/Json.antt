-- ===== src/Json.antt =====
-- firmware/src/events_json.h: the readers of the gateway's replies, `parseJsonInt`, `jsonValueStart`,
-- `parseJsonBool`, `parseJsonString` and `parseAckThrough`. A text is the bytes of a C string; an
-- `int64_t` is its 64-bit pattern; a result `false` is `none`.
pub mod Printing
pub mod Finding
pub mod Reading
pub mod Values
use presence_platform.Prelude.{
  ℕ, zero, suc, ◌+◌, ◌-◌, ◌*◌, ◌%◌, ◌^◌, Bool, true, false, not, ◌&&◌, ◌||◌, Option, none, some, [],
  ◌∷◌, ◌++◌, Bytes, codes, length, ◌==◌, ltb, leb, if◌then◌else◌, u64_mod,
}

unfoldable pub is_space : ℕ → Bool
is_space c = c == b' ' || c == 9 || c == 10 || c == 13

unfoldable pub skip_spaces : Bytes → Bytes
skip_spaces [] = []
skip_spaces (c ∷ cs) = let rest = skip_spaces cs in if is_space c then rest else c ∷ cs

-- What follows a prefix, if the text has it.
unfoldable pub after_prefix : Bytes → Bytes → Option Bytes
after_prefix [] text = some text
after_prefix (p ∷ ps) [] = none
after_prefix (p ∷ ps) (c ∷ cs) = let rest = after_prefix ps cs in if p == c then rest else none

-- `std::string("\"") + key + "\""`
unfoldable pub quoted : Bytes → Bytes
quoted key = b'"' ∷ (key ++ b'"' ∷ [])

unfoldable pub colon_first : Bytes → Option Bytes
colon_first [] = none
colon_first (c ∷ cs) = if c == b':' then some (skip_spaces cs) else none

-- The value behind a key, unless no `:` follows the key.
unfoldable pub after_colon : Bytes → Option Bytes
unfolding colon_first
after_colon text = colon_first (skip_spaces text)

-- The loop over `hay.find(needle, pos)`, with `skip` bytes still to pass.
unfoldable pub find_value : Bytes → ℕ → Bytes → Option Bytes
find_value needle skip [] = none
find_value needle (suc skip) (c ∷ cs) = find_value needle skip cs
find_value needle zero (c ∷ cs) =
    let next = find_value needle 0 cs in
    let past = find_value needle (length needle - 1) cs in
    elim (after_prefix needle (c ∷ cs)) [
      | none ↦ next
      | some rest ↦ elim (after_colon rest) [ none ↦ past | some value ↦ some value ]
    ]

-- `i < hay.size() ? i : std::string::npos`
unfoldable pub not_at_end : Option Bytes → Option Bytes
not_at_end none = none
not_at_end (some []) = none
not_at_end (some (c ∷ cs)) = some (c ∷ cs)

unfoldable pub json_value_start : Bytes → Bytes → Option Bytes
json_value_start hay key = not_at_end (find_value (quoted key) 0 hay)

unfoldable pub json_digit : ℕ → Bool
json_digit c = leb b'0' c && leb c b'9'

-- `while (...) value = value * 10 + (hay[i] - '0')`
unfoldable pub read_value : ℕ → Bytes → ℕ
read_value value [] = value
read_value value (c ∷ cs) =
    let rest = read_value ((value * 10 + (c - b'0')) % u64_mod) cs in
    if json_digit c then rest else value

unfoldable pub read_unsigned : Bytes → Option ℕ
read_unsigned [] = none
read_unsigned (c ∷ cs) = if json_digit c then some (read_value 0 (c ∷ cs)) else none

-- `-value`
unfoldable pub negated : Option ℕ → Option ℕ
negated none = none
negated (some v) = some ((u64_mod - v) % u64_mod)

unfoldable pub read_signed : Bytes → Option ℕ
read_signed [] = none
read_signed (c ∷ cs) =
    if c == b'-'
    then negated (read_unsigned cs)
    else if c == b'+'
    then read_unsigned cs
    else read_unsigned (c ∷ cs)

unfoldable pub signed_value : Option Bytes → Option ℕ
signed_value none = none
signed_value (some text) = read_signed text

unfoldable pub parse_json_int : Bytes → Bytes → Option ℕ
parse_json_int json key = signed_value (find_value (quoted key) 0 json)

unfoldable pub parse_ack_through : Bytes → ℕ
parse_ack_through json = elim (parse_json_int json (codes "ack_through")) [
  | none ↦ 2 ^ 64 - 1
  | some v ↦ v
]

unfoldable pub has_prefix : Bytes → Bytes → Bool
has_prefix p text = elim (after_prefix p text) [ none ↦ false | some rest ↦ true ]

unfoldable pub bool_value : Option Bytes → Option Bool
bool_value none = none
bool_value (some text) =
    if has_prefix (codes "true") text
    then some true
    else if has_prefix (codes "false") text
    then some false
    else none

unfoldable pub parse_json_bool : Bytes → Bytes → Option Bool
parse_json_bool json key = bool_value (json_value_start json key)

-- `value.push_back(c)` to a value of `n` bytes, and the check of `maxLen` behind it.
unfoldable pub push_char : ℕ → ℕ → ℕ → Option Bytes → Option Bytes
push_char max_len n c none = none
push_char max_len n c (some rest) = if ltb max_len (n + 1) then none else some (c ∷ rest)

unfoldable pub escapable : ℕ → Bool
escapable e = e == b'"' || e == b'\\' || e == b'/'

-- The loop of `parseJsonString` behind the opening quote, with `n` bytes read.
unfoldable pub read_string : ℕ → ℕ → Bytes → Option Bytes
read_string max_len n [] = none
read_string max_len n (c ∷ []) = if c == b'"' then some [] else none
read_string max_len n (c ∷ (e ∷ rest)) =
    let escaped = push_char max_len n e (read_string max_len (n + 1) rest) in
    let plain = push_char max_len n c (read_string max_len (n + 1) (e ∷ rest)) in
    if c == b'"'
    then some []
    else if ltb c 0x20
    then none
    else if c == b'\\'
    then (if escapable e then escaped else none)
    else plain

unfoldable pub string_value : ℕ → Option Bytes → Option Bytes
string_value max_len none = none
string_value max_len (some []) = none
string_value max_len (some (c ∷ cs)) = if c == b'"' then read_string max_len 0 cs else none

unfoldable pub parse_json_string : Bytes → Bytes → ℕ → Option Bytes
parse_json_string json key max_len = string_value max_len (json_value_start json key)
