-- ===== src/Tests/Replies.antt =====
-- Texts that the gateway and the installer send, and the date of a timestamp.
use presence_platform.Prelude.{
  IsByte, All, ℕ, ◌+◌, ◌/◌, ◌%◌, min, ◌^◌, ◌≤◌, ◌<◌, ◌≡◌, ◌↔◌, refl, true, some, [], ◌∷◌, ◌++◌,
  Bytes, bytes_eq, codes, length, replicate, arith,
}
use presence_platform.Json.Printing.{
  number, flag, text, Fields, print_object, lookup, is_plain, all_plain, plain_value, plain_fields,
  is_key,
}
use presence_platform.Json.Reading.{in_range}
use presence_platform.Hex.{to_hex, decode_hex_exact, decode_pairs, nibble, put_byte}
use presence_platform.Hex.Decoding.{lower}
use presence_platform.Provision.Base64.{decode_base64_exact}
use presence_platform.Provision.Base64.Canonical.{encode_base64}
use presence_platform.Provision.Base64.Exact.{decode_base64_iff}
use presence_platform.Provision.Token.{ok, token_hex_digit}
use presence_platform.Provision.Reply.{
  ProvisionResult, uuid_chars, is_uuid_text, parse_provision_response,
}
use presence_platform.Provision.Reply.Uuid.{IsUuid}
use presence_platform.Provision.Reply.Accepted.{parse_printed_reply_iff}
use presence_platform.Ota.Version.{parse_ota_version}
use presence_platform.Ota.Manifest.{OtaManifest, url_ok, parse_ota_manifest}
use presence_platform.Ota.Manifest.Offers.{parse_offer_iff}
use presence_platform.Events.{
  append_padded, low_padded, civil_from_days, civil_in_era, year_of_era, day_of_year, month_part,
  pinned_year, date_text, clock_text, format_rfc3339_utc,
}
use presence_platform.Events.Calendar.{days_in_month, days_before_month, days_before_year}
use presence_platform.Events.Timestamp.{two_digits, three_digits, four_digits, timestamp_text}
use presence_platform.Decimal.{reversed}
use presence_platform.Bench.{
  BenchSecretParse, parse_bench_secret_command, ends_word, words_of, put_char, read_fields,
  check_fields, key_version, starts_with_zero, read_version, in_version_range, with_secret,
  with_version, lower_id, lower_id_digit,
}
use presence_platform.Bench.Accepted.{Words, accepted_command}

abbrev ack : Fields
ack = (codes "accepted", number 2) ∷ (codes "ack_through", number 41) ∷ []

plain_ack : plain_fields ack ≡ true
unfolding plain_fields plain_value all_plain is_plain
plain_ack = refl

key_ack : is_key (codes "ack_through") ≡ true
unfolding is_key all_plain is_plain
key_ack = refl

range_ack : in_range (lookup (codes "ack_through") ack) ≡ true
unfolding in_range lookup bytes_eq
range_ack = refl

abbrev two_bytes : Bytes
two_bytes = 10 ∷ 255 ∷ []

abbrev three_bytes : Bytes
three_bytes = 1 ∷ 2 ∷ 255 ∷ []

decode_base64_iff_example :
    decode_base64_exact (codes "AQL/") 3 ≡ some three_bytes
    ↔ (0 < 3)
      × ((length three_bytes ≡ 3)
          × (All IsByte three_bytes × (codes "AQL/" ≡ encode_base64 three_bytes)))
decode_base64_iff_example = decode_base64_iff (codes "AQL/") 3 three_bytes

abbrev typed : Bytes
typed = codes " AB" ++ replicate 62 b'0'

abbrev secret : Bytes
secret = replicate 32 7

abbrev uuid : Bytes
uuid = codes "00000000-0000-0000-0000-00000000000a"

abbrev reply : Fields
reply =
    (codes "device_id", text uuid)
    ∷ (codes "device_secret", text (codes "BwcHBwcHBwcHBwcHBwcHBwcHBwcHBwcHBwcHBwcHBwc="))
    ∷ (codes "key_version", number 1)
    ∷ (codes "server_time_ms", number 1700000000000)
    ∷ []

abbrev provisioned : ProvisionResult
provisioned = record {
  device_id = uuid;
  secret = secret;
  key_version = 1;
  server_time_ms = 1700000000000;
}

plain_reply : plain_fields reply ≡ true
unfolding plain_fields plain_value all_plain is_plain
plain_reply = refl

range_key_version : in_range (lookup (codes "key_version") reply) ≡ true
unfolding in_range lookup bytes_eq
range_key_version = refl

range_server_time : in_range (lookup (codes "server_time_ms") reply) ≡ true
unfolding in_range lookup bytes_eq
range_server_time = refl

parse_printed_reply_iff_example :
    parse_provision_response (print_object reply) ≡ some provisioned
    ↔ (lookup (codes "device_id") reply ≡ some (text uuid))
      × IsUuid uuid
      × (lookup (codes "device_secret") reply ≡ some (text (encode_base64 secret)))
      × (length secret ≡ 32)
      × All IsByte secret
      × (lookup (codes "key_version") reply ≡ some (number 1))
      × (lookup (codes "server_time_ms") reply ≡ some (number 1700000000000))
      × (1 ≤ 1)
      × (1 ≤ 2147483647)
      × (0 < 1700000000000)
      × (1700000000000 ≤ 9223372036854775807)
parse_printed_reply_iff_example =
    parse_printed_reply_iff reply provisioned plain_reply range_key_version range_server_time

abbrev image_path : Bytes
image_path = codes "/v1/device/firmware/images/ab"

abbrev manifest : Fields
manifest =
    (codes "available", flag true)
    ∷ (codes "version", text (codes "1.2.3"))
    ∷ (codes "url", text image_path)
    ∷ (codes "size", number 4096)
    ∷ (codes "sha256", text (replicate 64 b'A'))
    ∷ (codes "signature", text (replicate 128 b'0'))
    ∷ []

abbrev offer : OtaManifest
offer = record {
  available = true;
  version = codes "1.2.3";
  url = image_path;
  size = 4096;
  sha256 = replicate 32 170;
  signature = replicate 64 0;
}

plain_manifest : plain_fields manifest ≡ true
unfolding plain_fields plain_value all_plain is_plain
plain_manifest = refl

range_size : in_range (lookup (codes "size") manifest) ≡ true
unfolding in_range lookup bytes_eq
range_size = refl

available : lookup (codes "available") manifest ≡ some (flag true)
unfolding lookup bytes_eq
available = refl

parse_offer_iff_example :
    parse_ota_manifest (print_object manifest) ≡ some offer
    ↔ (lookup (codes "version") manifest ≡ some (text (codes "1.2.3")))
      × (5 ≤ 32)
      × ((code : ℕ) × (parse_ota_version (codes "1.2.3") ≡ some code))
      × (lookup (codes "url") manifest ≡ some (text image_path))
      × (length image_path ≤ 512)
      × (url_ok image_path ≡ true)
      × (lookup (codes "size") manifest ≡ some (number 4096))
      × (0 < 4096)
      × (4096 < 2 ^ 63)
      × ((digits : Bytes) × (lookup (codes "sha256") manifest ≡ some (text digits))
          × (lower digits ≡ to_hex offer.sha256)
          × (length offer.sha256 ≡ 32)
          × All IsByte offer.sha256)
      × ((digits : Bytes) × (lookup (codes "signature") manifest ≡ some (text digits))
          × (lower digits ≡ to_hex offer.signature)
          × (length offer.signature ≡ 64)
          × All IsByte offer.signature)
      × (offer.available ≡ true)
parse_offer_iff_example = parse_offer_iff manifest offer plain_manifest range_size available

timestamp_text_example :
    let c = civil_from_days (1709208000123 / 86400000) in
    let day_ms = 1709208000123 % 86400000 in
    (format_rfc3339_utc 1709208000123
      ≡ four_digits (min c.year 9999)
        ++ b'-' ∷ two_digits c.month
        ++ b'-' ∷ two_digits c.day
        ++ b'T' ∷ two_digits (day_ms / 3600000)
        ++ b':' ∷ two_digits (day_ms / 60000 % 60)
        ++ b':' ∷ two_digits (day_ms / 1000 % 60)
        ++ b'.' ∷ three_digits (day_ms % 1000)
        ++ b'Z' ∷ [])
    × (1 ≤ c.month)
    × (c.month ≤ 12)
    × (1 ≤ c.day)
    × (c.day ≤ days_in_month c.year c.month)
    × (days_before_year c.year + days_before_month c.year c.month + c.day
        ≡ 1709208000123 / 86400000 + 719163)
timestamp_text_example = timestamp_text 1709208000123 (omega arith)

-- 2024-02-29T12:00:00.123Z
leap_day : format_rfc3339_utc 1709208000123 ≡ codes "2024-02-29T12:00:00.123Z"
unfolding format_rfc3339_utc date_text clock_text append_padded low_padded reversed pinned_year
    civil_from_days civil_in_era year_of_era day_of_year month_part
leap_day = refl

abbrev full_secret : Bytes
full_secret = replicate 32 255

abbrev bench_line : Bytes
bench_line =
    codes "BENCH-SECRET 00000000-0000-0000-0000-00000000000A  " ++ replicate 64 b'F' ++ codes " 7"

bench_line_parses : parse_bench_secret_command bench_line ≡ BenchSecretParse.ok uuid (full_secret) 7
unfolding parse_bench_secret_command bytes_eq ends_word words_of put_char read_fields check_fields
    is_uuid_text uuid_chars token_hex_digit decode_hex_exact decode_pairs nibble put_byte
    key_version starts_with_zero read_version in_version_range with_secret with_version lower_id
    lower_id_digit
bench_line_parses = refl

accepted_command_example :
    (rest : Bytes) × (bench_line ≡ codes "BENCH-SECRET" ++ (b' ' ∷ rest))
    × ((f : Bytes) × (g : Bytes) × IsUuid f
        × (uuid ≡ lower f)
        × (length full_secret ≡ 32)
        × All IsByte full_secret
        × (lower g ≡ to_hex full_secret)
        × (1 ≤ 7)
        × (7 < 2 ^ 31)
        × Words (b' ' ∷ rest) f g 7)
accepted_command_example = accepted_command bench_line uuid full_secret 7 bench_line_parses
