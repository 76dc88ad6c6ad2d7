-- ===== src/Provision/Token.antt =====
-- firmware/src/provision.h: the provisioning token, from the form to NVS.
pub mod Stored
use presence_platform.Prelude.{
  ℕ, zero, suc, ◌+◌, ◌-◌, Bool, true, false, not, ◌&&◌, ◌||◌, Option, none, some, [], ◌∷◌, ◌++◌,
  Bytes, length, take, get_elem?, replicate, ◌==◌, ltb, leb, if◌then◌else◌,
}

abbrev pub provision_token_hex_chars : ℕ
provision_token_hex_chars = 64

-- The array is whole, 65 bytes.
pub record ProvisionTokenRecord : Type 0 where
  pub magic : ℕ
  pub token : Bytes

abbrev pub provision_token_magic : ℕ
provision_token_magic = 0x314B4F54

pub data TokenError : Type 0 where
  ok missing bad_length bad_hex : TokenError

unfoldable pub token_hex_digit : ℕ → Bool
token_hex_digit c =
    (leb b'0' c && leb c b'9') || (leb b'a' c && leb c b'f') || (leb b'A' c && leb c b'F')

unfoldable pub trimmable : ℕ → Bool
trimmable c = c == b' ' || c == 9 || c == 13 || c == 10

-- The first loop of `trimSpaces`.
unfoldable pub trim_front : Bytes → Bytes
trim_front [] = []
trim_front (c ∷ cs) = let rest = trim_front cs in if trimmable c then rest else c ∷ cs

-- The second loop, from the end.
unfoldable pub trim_back : Bytes → Bytes
trim_back [] = []
trim_back (c ∷ cs) =
    let rest = trim_back cs in if length rest == 0 && trimmable c then [] else c ∷ rest

unfoldable pub trim_spaces : Bytes → Bytes
trim_spaces s = trim_back (trim_front s)

unfoldable pub all_hex : Bytes → Bool
all_hex [] = true
all_hex (c ∷ cs) = token_hex_digit c && all_hex cs

unfoldable pub validate_provision_token : Bytes → TokenError
validate_provision_token s =
    if length s == 0
    then missing
    else if not (length s == provision_token_hex_chars)
    then bad_length
    else if all_hex s
    then ok
    else bad_hex

unfoldable pub lower_digit : ℕ → ℕ
lower_digit c = if leb b'A' c && leb c b'F' then c - b'A' + b'a' else c

unfoldable pub lower_token : Bytes → Bytes
lower_token [] = []
lower_token (c ∷ cs) = lower_digit c ∷ lower_token cs

abbrev pub zero_token_record : ProvisionTokenRecord
zero_token_record = record { magic = 0; token = replicate 65 0 }

-- The record for a token that passed; the byte behind the 64 stays 0.
unfoldable pub token_record : TokenError → Bytes → ProvisionTokenRecord
token_record ok s = record { magic = provision_token_magic; token = lower_token s ++ 0 ∷ [] }
token_record _ s = zero_token_record

unfoldable pub make_token_record : Bytes → TokenError × ProvisionTokenRecord
make_token_record token =
    let s = trim_spaces token in let e = validate_provision_token s in (e, token_record e s)

unfoldable pub lower_hex_digit : ℕ → Bool
lower_hex_digit c = (leb b'0' c && leb c b'9') || (leb b'a' c && leb c b'f')

unfoldable pub all_lower_hex : Bytes → Bool
all_lower_hex [] = true
all_lower_hex (c ∷ cs) = lower_hex_digit c && all_lower_hex cs

-- `r.token[n] == '\0'`
unfoldable pub ends_at : ℕ → Bytes → Bool
ends_at n s = elim (get_elem? s n) [ none ↦ false | some c ↦ c == 0 ]

unfoldable pub token_record_usable : ProvisionTokenRecord → Bool
token_record_usable r =
    r.magic == provision_token_magic
    && ends_at provision_token_hex_chars r.token
    && all_lower_hex (take provision_token_hex_chars r.token)

-- `none` is a store that is null or loads nothing.
unfoldable pub load_usable_token : Option ProvisionTokenRecord → Bool × ProvisionTokenRecord
load_usable_token none = (false, zero_token_record)
load_usable_token (some r) = if token_record_usable r then (true, r) else (false, zero_token_record)
