-- ===== src/Bench.antt =====
-- firmware/src/bench_secret.h: the command that stores a device secret over the serial line.
pub mod Words
pub mod Accepted
use presence_platform.Prelude.{
  ℕ, zero, suc, ◌+◌, ◌-◌, ◌*◌, ◌^◌, Bool, true, false, not, ◌&&◌, ◌||◌, Option, none, some, List,
  [], ◌∷◌, ◌++◌, Bytes, bytes_eq, codes, length, take, drop, get_elem?, ◌==◌, ltb, leb,
  if◌then◌else◌,
}
use presence_platform.Decimal.{json_int}
use presence_platform.Hex.{to_hex, decode_hex_exact}
use presence_platform.Provision.Reply.{device_secret_bytes, is_uuid_text}

-- `*out` is the device id, the secret and the key version, on `ok` alone.
pub data BenchSecretParse : Type 0 where
  not_ours missing_fields extra_fields bad_device_id bad_secret_length bad_secret_hex
        bad_key_version :
      BenchSecretParse
  ok : Bytes → Bytes → ℕ → BenchSecretParse

unfoldable pub bench_secret_parse_text : BenchSecretParse → Bytes
bench_secret_parse_text not_ours = codes "not a BENCH-SECRET command"
bench_secret_parse_text (ok id secret version) = []
bench_secret_parse_text missing_fields =
    codes "usage: BENCH-SECRET <device_id> <secret> [<key_version>]"
bench_secret_parse_text extra_fields = codes "too many fields"
bench_secret_parse_text bad_device_id = codes "device_id is not a UUID"
bench_secret_parse_text bad_secret_length = codes "the secret is not 64 hex digits"
bench_secret_parse_text bad_secret_hex = codes "the secret is not hex"
bench_secret_parse_text bad_key_version = codes "key_version is not 1 to 2147483647"

abbrev pub verb : Bytes
verb = codes "BENCH-SECRET"

-- A character in front of the words that are read behind it; `start` is whether it begins a word.
unfoldable pub put_char : ℕ → Bool → List Bytes → List Bytes
put_char c true words = (c ∷ []) ∷ words
put_char c false [] = (c ∷ []) ∷ []
put_char c false (w ∷ words) = (c ∷ w) ∷ words

unfoldable pub ends_word : Bytes → Bool
ends_word [] = true
ends_word (c ∷ cs) = c == b' '

-- The words between the spaces, all of them; the loop keeps the first three and counts the others.
unfoldable pub words_of : Bytes → List Bytes
words_of [] = []
words_of (c ∷ cs) =
    let rest = words_of cs in if c == b' ' then rest else put_char c (ends_word cs) rest

-- `none` is a character that is no digit.
unfoldable pub read_version : ℕ → Bytes → Option ℕ
read_version kv [] = some kv
read_version kv (c ∷ cs) =
    let rest = read_version (kv * 10 + (c - b'0')) cs in
    if ltb c b'0' || ltb b'9' c then none else rest

unfoldable pub starts_with_zero : Bytes → Bool
starts_with_zero [] = false
starts_with_zero (c ∷ cs) = c == b'0'

unfoldable pub in_version_range : Option ℕ → Option ℕ
in_version_range none = none
in_version_range (some kv) = if ltb kv 1 || ltb (2 ^ 31 - 1) kv then none else some kv

unfoldable pub key_version : Bytes → Option ℕ
key_version v =
    if length v == 0 || ltb 10 (length v) || starts_with_zero v
    then none
    else in_version_range (read_version 0 v)

unfoldable pub lower_id_digit : ℕ → ℕ
lower_id_digit c = if leb b'A' c && leb c b'F' then c - b'A' + b'a' else c

unfoldable pub lower_id : Bytes → Bytes
lower_id [] = []
lower_id (c ∷ cs) = lower_id_digit c ∷ lower_id cs

unfoldable pub with_version : Bytes → Bytes → Option ℕ → BenchSecretParse
with_version id secret none = bad_key_version
with_version id secret (some kv) = ok (lower_id id) secret kv

unfoldable pub with_secret : Bytes → Option Bytes → Option ℕ → BenchSecretParse
with_secret id none kv = bad_secret_hex
with_secret id (some secret) kv = with_version id secret kv

-- The checks on the fields; `kv` is the key version of the third field, 1 where there is none.
unfoldable pub check_fields : Bytes → Bytes → Option ℕ → BenchSecretParse
check_fields id secret kv =
    if not (is_uuid_text id)
    then bad_device_id
    else if not (length secret == 2 * device_secret_bytes)
    then bad_secret_length
    else with_secret id (decode_hex_exact secret device_secret_bytes) kv

unfoldable pub read_fields : List Bytes → BenchSecretParse
read_fields (id ∷ (secret ∷ [])) = check_fields id secret (some 1)
read_fields (id ∷ (secret ∷ (v ∷ []))) = check_fields id secret (key_version v)
read_fields (id ∷ (secret ∷ (v ∷ (w ∷ more)))) = extra_fields
read_fields _ = missing_fields

unfoldable pub parse_bench_secret_command : Bytes → BenchSecretParse
parse_bench_secret_command line =
    if ltb (length line) (length verb) || not (bytes_eq (take (length verb) line) verb)
    then not_ours
    else if not (ends_word (drop (length verb) line))
    then not_ours
    else read_fields (words_of (drop (length verb) line))

module _ (crypto_sha512 : Bytes → Bytes) where
  unfoldable pub bench_secret_fingerprint : Bytes → Bytes
  bench_secret_fingerprint secret = to_hex (take 4 (crypto_sha512 secret))

  unfoldable pub bench_secret_ok_line : Bytes → ℕ → Bytes → Bytes
  bench_secret_ok_line device_id version read_back =
      codes "BENCH-SECRET OK device="
      ++ device_id
      ++ codes " key_version="
      ++ json_int version
      ++ codes " fingerprint="
      ++ bench_secret_fingerprint read_back
