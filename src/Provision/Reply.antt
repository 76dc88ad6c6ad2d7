-- ===== src/Provision/Reply.antt =====
-- firmware/src/provision.h: the request for the device secret and the gateway's reply.
pub mod Uuid
pub mod Accepted
use presence_platform.Prelude.{
  ℕ, zero, suc, ◌+◌, ◌-◌, ◌/◌, ◌%◌, ◌^◌, Bool, true, false, not, ◌&&◌, ◌||◌, Option, none, some, [],
  ◌∷◌, ◌++◌, Bytes, codes, length, ◌==◌, ltb, leb, if◌then◌else◌,
}
use presence_platform.Json.{parse_json_int, parse_json_string}
use presence_platform.Provision.Base64.{decode_base64_exact}
use presence_platform.Provision.Token.{token_hex_digit}

-- `kHex[v]`
unfoldable pub upper_hex_digit : ℕ → ℕ
upper_hex_digit v = if ltb v 10 then b'0' + v else b'A' + (v - 10)

unfoldable pub device_serial : Bytes → Bytes
device_serial [] = []
device_serial (b ∷ bs) = upper_hex_digit (b / 16) ∷ upper_hex_digit (b % 16) ∷ device_serial bs

unfoldable pub build_provision_body : Bytes → Bytes → Bytes
build_provision_body serial firmware_version =
    codes "{\"serial\":\""
    ++ (serial ++ (codes "\",\"firmware_version\":\"" ++ (firmware_version ++ codes "\"}")))

pub data ProvisionStatus : Type 0 where
  ok refused retry : ProvisionStatus

unfoldable pub classify_provision_status : ℕ → ProvisionStatus
classify_provision_status http_status =
    if http_status == 200
    then ok
    else if http_status == 401 || http_status == 403 || http_status == 409
    then refused
    else retry

abbrev pub device_secret_bytes : ℕ
device_secret_bytes = 32

-- The two numbers are 64-bit patterns.
pub record ProvisionResult : Type 0 where
  pub device_id : Bytes
  pub secret : Bytes
  pub key_version : ℕ
  pub server_time_ms : ℕ

-- The loop of `isUuidText`, at index `i`.
unfoldable pub uuid_chars : ℕ → Bytes → Bool
uuid_chars i [] = true
uuid_chars i (c ∷ cs) =
    let rest = uuid_chars (i + 1) cs in
    if i == 8 || i == 13 || i == 18 || i == 23 then c == b'-' && rest else token_hex_digit c && rest

unfoldable pub is_uuid_text : Bytes → Bool
is_uuid_text s = length s == 36 && uuid_chars 0 s

-- `kv < 1 || kv > INT32_MAX` and `ts <= 0` of 64-bit patterns: a pattern from 2^63 on is negative.
unfoldable pub numbers_ok : ℕ → ℕ → Bool
numbers_ok kv ts = leb 1 kv && leb kv (2 ^ 31 - 1) && (ltb 0 ts && ltb ts (2 ^ 63))

unfoldable pub accept_numbers : Bytes → Bytes → Option ℕ → Option ℕ → Option ProvisionResult
accept_numbers id secret (some kv) (some ts) =
    if numbers_ok kv ts
    then some (record { device_id = id; secret = secret; key_version = kv; server_time_ms = ts })
    else none
accept_numbers id secret _ _ = none

unfoldable pub decoded_secret : Option Bytes → Option Bytes
decoded_secret none = none
decoded_secret (some text) = decode_base64_exact text device_secret_bytes

unfoldable pub accept_fields :
    Option Bytes → Option Bytes → Option ℕ → Option ℕ → Option ProvisionResult
accept_fields (some id) (some secret) kv ts =
    if is_uuid_text id then accept_numbers id secret kv ts else none
accept_fields _ _ kv ts = none

unfoldable pub parse_provision_response : Bytes → Option ProvisionResult
unfolding accept_fields decoded_secret
parse_provision_response json =
    accept_fields (parse_json_string json (codes "device_id") 36)
      (decoded_secret (parse_json_string json (codes "device_secret") 64))
      (parse_json_int json (codes "key_version")) (parse_json_int json (codes "server_time_ms"))
