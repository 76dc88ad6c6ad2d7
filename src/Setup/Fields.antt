-- ===== src/Setup/Fields.antt =====
-- firmware/src/wifi_provision.h: the checks on a network's name and password, and the record of
-- credentials that NVS keeps. A `char` is a byte; a C string in an array ends at its first 0.
pub mod Stored
use presence_platform.Prelude.{
  ℕ, zero, suc, ◌+◌, ◌-◌, Bool, true, false, not, ◌&&◌, ◌||◌, Option, none, some, [], ◌∷◌, ◌++◌,
  Bytes, codes, length, take, replicate, ◌==◌, ltb, leb, if◌then◌else◌,
}

abbrev pub wifi_ssid_max_bytes : ℕ
wifi_ssid_max_bytes = 32

abbrev pub wifi_passphrase_min_bytes : ℕ
wifi_passphrase_min_bytes = 8

abbrev pub wifi_passphrase_max_bytes : ℕ
wifi_passphrase_max_bytes = 63

abbrev pub wifi_psk_hex_chars : ℕ
wifi_psk_hex_chars = 64

pub data WifiFieldError : Type 0 where
  ok ssid_missing ssid_too_long ssid_bad_byte : WifiFieldError
  password_too_short password_too_long password_bad_byte password_bad_hex : WifiFieldError

-- `e == WifiFieldError::Ok`
unfoldable pub is_ok : WifiFieldError → Bool
is_ok ok = true
is_ok _ = false

-- The arrays are whole, 33 and 65 bytes.
pub record WifiCredentials : Type 0 where
  pub magic : ℕ
  pub ssid : Bytes
  pub password : Bytes

abbrev pub wifi_credentials_magic : ℕ
wifi_credentials_magic = 0x31464957

unfoldable pub all_bytes : (ℕ → Bool) → Bytes → Bool
all_bytes p [] = true
all_bytes p (c ∷ cs) = p c && all_bytes p cs

unfoldable pub ssid_byte : ℕ → Bool
ssid_byte c = not (ltb c 0x20 || c == 0x7F)

unfoldable pub validate_ssid : Bytes → WifiFieldError
validate_ssid s =
    if length s == 0
    then ssid_missing
    else if ltb wifi_ssid_max_bytes (length s)
    then ssid_too_long
    else if all_bytes ssid_byte s
    then ok
    else ssid_bad_byte

unfoldable pub is_hex_digit : ℕ → Bool
is_hex_digit c =
    (leb b'0' c && leb c b'9') || (leb b'a' c && leb c b'f') || (leb b'A' c && leb c b'F')

unfoldable pub passphrase_byte : ℕ → Bool
passphrase_byte c = not (ltb c 0x20 || ltb 0x7E c)

unfoldable pub validate_password : Bytes → WifiFieldError
validate_password s =
    if length s == 0
    then ok
    else if ltb (length s) wifi_passphrase_min_bytes
    then password_too_short
    else if length s == wifi_psk_hex_chars
    then (if all_bytes is_hex_digit s then ok else password_bad_hex)
    else if ltb wifi_passphrase_max_bytes (length s)
    then password_too_long
    else if all_bytes passphrase_byte s
    then ok
    else password_bad_byte

-- `memset(out, 0, sizeof(*out))`
abbrev pub zero_credentials : WifiCredentials
zero_credentials = record { magic = 0; ssid = replicate 33 0; password = replicate 65 0 }

-- `memcpy` of a string to the front of a zeroed array of `n` bytes.
unfoldable pub padded : ℕ → Bytes → Bytes
padded n s = s ++ replicate (n - length s) 0

-- The error, and what `*out` is then.
unfoldable pub make_credentials : Bytes → Bytes → WifiFieldError × WifiCredentials
make_credentials ssid password =
    let e1 = validate_ssid ssid in
    let e = (if is_ok e1 then validate_password password else e1) in
    if is_ok e
    then (
      ok,
      record {
        magic = wifi_credentials_magic;
        ssid = padded 33 ssid;
        password = padded 65 password;
      },
    )
    else (e, zero_credentials)

-- The text before the first 0 of an array: `memchr` and the difference of the pointers.
unfoldable pub c_string : Bytes → Option Bytes
c_string [] = none
c_string (c ∷ cs) =
    let rest = c_string cs in
    if c == 0 then some [] else elim rest [ none ↦ none | some s ↦ some (c ∷ s) ]

unfoldable pub both_valid : Option Bytes → Option Bytes → Bool
both_valid (some ssid) (some password) =
    is_ok (validate_ssid ssid) && is_ok (validate_password password)
both_valid _ _ = false

unfoldable pub credentials_usable : WifiCredentials → Bool
credentials_usable c =
    c.magic == wifi_credentials_magic && both_valid (c_string c.ssid) (c_string c.password)

-- `store` is what `load` fills in, if it succeeds; a null store loads nothing.
unfoldable pub load_usable_credentials : Option WifiCredentials → Bool × WifiCredentials
load_usable_credentials none = (false, zero_credentials)
load_usable_credentials (some c) =
    if credentials_usable c then (true, c) else (false, zero_credentials)

-- `strnlen` of an array, and the bytes that it counts.
unfoldable pub text_of_array : Bytes → Bytes
text_of_array [] = []
text_of_array (c ∷ cs) = let rest = text_of_array cs in if c == 0 then [] else c ∷ rest

unfoldable pub describe_wifi : WifiCredentials → Bytes
describe_wifi c =
    let n = length (text_of_array c.password) in
    codes "\""
    ++ text_of_array c.ssid
    ++ codes "\""
    ++ (if n == 0
        then codes " (open network)"
        else if n == wifi_psk_hex_chars
        then codes " (WPA2, raw key)"
        else codes " (WPA2, passphrase)")
