-- ===== src/Ota/Manifest.antt =====
-- firmware/src/ota_verify.h: `otaUrlIsGatewayPath` and `parseOtaManifest`.
pub mod Path
pub mod Offers
use presence_platform.Prelude.{
  ℕ, zero, ◌*◌, ◌^◌, Bool, true, false, not, ◌&&◌, ◌||◌, Option, none, some, [], ◌∷◌, Bytes, codes,
  length, replicate, ◌==◌, ltb, leb, if◌then◌else◌,
}
use presence_platform.Json.{has_prefix, parse_json_int, parse_json_bool, parse_json_string}
use presence_platform.Hex.{decode_hex_exact}
use presence_platform.Ota.Version.{parse_ota_version}

pub record OtaManifest : Type 0 where
  pub available : Bool
  pub version : Bytes
  pub url : Bytes
  pub size : ℕ
  pub sha256 : Bytes
  pub signature : Bytes

-- A manifest as it is made, with `available` set.
abbrev pub new_manifest : Bool → OtaManifest
new_manifest available = record {
  available = available;
  version = [];
  url = [];
  size = 0;
  sha256 = replicate 32 0;
  signature = replicate 64 0;
}

abbrev pub manifest_max_version : ℕ
manifest_max_version = 32

abbrev pub manifest_max_url : ℕ
manifest_max_url = 512

unfoldable pub path_char : ℕ → Bool
path_char c =
    (leb b'a' c && leb c b'z')
    || (leb b'0' c && leb c b'9')
    || c == b'/'
    || c == b'.'
    || c == b'-'
    || (leb b'A' c && leb c b'Z')
    || c == b'_'

unfoldable pub all_path_chars : Bytes → Bool
all_path_chars [] = true
all_path_chars (c ∷ cs) = path_char c && all_path_chars cs

-- `url.find("..") != npos`
unfoldable pub has_dots : Bytes → Bool
has_dots [] = false
has_dots (c ∷ []) = false
has_dots (c ∷ (d ∷ cs)) = (c == b'.' && d == b'.') || has_dots (d ∷ cs)

unfoldable pub ota_url_is_gateway_path : Bytes → Bool
ota_url_is_gateway_path url =
    has_prefix (codes "/v1/device/firmware/images/") url && all_path_chars url && not (has_dots url)

unfoldable pub url_ok : Bytes → Bool
url_ok url =
    ota_url_is_gateway_path url
    || has_prefix (codes "https://") url
    || has_prefix (codes "http://") url

unfoldable pub usable_version : Option Bytes → Option Bytes
usable_version none = none
usable_version (some v) = elim (parse_ota_version v) [ none ↦ none | some code ↦ some v ]

unfoldable pub usable_url : Option Bytes → Option Bytes
usable_url none = none
usable_url (some u) = if url_ok u then some u else none

-- `size <= 0` of a 64-bit pattern refuses 0 and the negative ones.
unfoldable pub positive_size : Option ℕ → Option ℕ
positive_size none = none
positive_size (some n) = if ltb 0 n && ltb n (2 ^ 63) then some n else none

unfoldable pub decoded_bytes : Option Bytes → ℕ → Option Bytes
decoded_bytes none n = none
decoded_bytes (some digits) n = decode_hex_exact digits n

unfoldable pub offered :
    Option Bytes → Option Bytes → Option ℕ → Option Bytes → Option Bytes → Option OtaManifest
offered (some v) (some u) (some n) (some sha) (some sig) =
    some
      (record { available = true; version = v; url = u; size = n; sha256 = sha; signature = sig })
offered _ _ _ _ _ = none

-- The fields of a manifest with an update.
unfoldable pub parse_offer : Bytes → Option OtaManifest
parse_offer json =
    offered (usable_version (parse_json_string json (codes "version") manifest_max_version))
      (usable_url (parse_json_string json (codes "url") manifest_max_url))
      (positive_size (parse_json_int json (codes "size")))
      (decoded_bytes (parse_json_string json (codes "sha256") 64) 32)
      (decoded_bytes (parse_json_string json (codes "signature") 128) 64)

unfoldable pub parse_ota_manifest : Bytes → Option OtaManifest
parse_ota_manifest json =
    let offer = parse_offer json in
    elim (parse_json_bool json (codes "available")) [
      | none ↦ none
      | some available ↦ if available then offer else some (new_manifest false)
    ]
