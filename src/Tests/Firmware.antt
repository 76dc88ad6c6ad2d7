-- ===== src/Tests/Firmware.antt =====
-- An update of three bytes, and one whose hash is not the announced one.
use presence_platform.Hex.{decode_hex_exact, decode_pairs, nibble, put_byte}
use presence_platform.Json.{
  find_value, after_prefix, quoted, after_colon, colon_first, skip_spaces, is_space, read_signed,
  read_unsigned, json_digit, read_value, parse_json_int, signed_value, parse_json_bool, bool_value,
  json_value_start, has_prefix, not_at_end, parse_json_string, string_value, read_string, push_char,
  escapable, negated,
}
use presence_platform.Net.{World, Node, signed_get}
use presence_platform.Net.Firmware.{
  rebooting, offer_of, check_firmware, take_manifest, download_image, after_update, is_refused_sha,
  wrong_length, updater_of,
}
use presence_platform.Net.Firmware.Reboot.{manifest_reply, check_firmware-IsInstalled}
use presence_platform.Ota.Manifest.{
  OtaManifest, parse_ota_manifest, parse_offer, offered, usable_version, usable_url, positive_size,
  decoded_bytes, url_ok, ota_url_is_gateway_path, all_path_chars, path_char, has_dots,
}
use presence_platform.Storage.Memory.{slice, overlay}
use presence_platform.Decimal.{digits, json_int, low_digits, reversed}
use presence_platform.Ota.Version.{
  parse_ota_version, ota_version_code, code_or_invalid, read_version, read_part, is_digit,
  read_digits, expect_dot, starts_with_digit, expect_end, push_part,
}
use presence_platform.Ota.Guard.{
  clear_pending, fresh_state, check, call, check_version, note_parsed, note_pending, save,
}
use presence_platform.Ota.Image.{
  is_unusable_key, is_sentinel_key, is_small_order_key, is_one_of, clear_sign, decide, feed,
  feed_stream, finish, finish_stream, open_stream, open_verifier, ota_signed_preamble, version_ok,
}
use presence_platform.Prelude.{
  false, ◌≡◌, refl, true, some, [], ◌∷◌, ◌++◌, Bytes, codes, replicate, arith, bytes_eq,
}
use presence_platform.Ota.Guard.Check.{IsNewer}
use presence_platform.Update.{
  Partitions, applied, OtaOffer, Updater, apply_ota, chunk_rounds, commit_image, download,
  end_image, invalidate_slot, judge_image, next_chunk, read_back, tell_ready, verify_slot,
  write_image,
}
use presence_platform.Update.Applied.{IsInstalled, apply_ota-IsInstalled}
use presence_platform.Tests.World.{
  plain_crypto, plain_crypto-IsStreaming, plain_hash, plain_hash-IsIncremental, partitions,
  partitions-IsPartitioned, stream, guard, taken, world, draw, node,
}

-- The hash of the toy world is the image.
abbrev offer : OtaOffer
offer = record {
  version = codes "2.0.0";
  size = 3;
  sha256 = 1 ∷ 2 ∷ 3 ∷ [];
  signature = replicate 64 8;
}

abbrev updater : Updater partitions stream
updater = record {
  flash = (λ a. 255, 0, some 0);
  source = 1 ∷ 2 ∷ 3 ∷ [];
  guard = guard;
  readies = 0;
}

abbrev key : Bytes
key = replicate 32 7

update_runs :
    (apply_ota plain_crypto plain_hash partitions stream key taken true true offer updater).0
    ≡ applied
unfolding apply_ota is_unusable_key is_sentinel_key is_small_order_key is_one_of clear_sign decide
    feed feed_stream finish finish_stream open_stream open_verifier ota_signed_preamble version_ok
    bytes_eq check call check_version note_parsed note_pending save parse_ota_version
    ota_version_code code_or_invalid read_version read_part is_digit read_digits expect_dot
    starts_with_digit expect_end push_part digits json_int low_digits reversed chunk_rounds
    commit_image download end_image invalidate_slot judge_image next_chunk read_back tell_ready
    verify_slot write_image slice overlay
update_runs = refl

apply_ota-IsInstalled_example :
    IsNewer guard offer.version offer.sha256
    × IsInstalled plain_crypto plain_hash partitions key offer
        (apply_ota plain_crypto plain_hash partitions stream key taken true true offer
          updater).1.flash
        (apply_ota plain_crypto plain_hash partitions stream key taken true true offer
          updater).1.guard
apply_ota-IsInstalled_example =
    apply_ota-IsInstalled plain_crypto plain_hash partitions stream plain_crypto-IsStreaming
      plain_hash-IsIncremental partitions-IsPartitioned key taken true true offer updater
      (omega arith) update_runs

abbrev wrong_offer : OtaOffer
wrong_offer = record offer { sha256 = 1 ∷ 2 ∷ 4 ∷ [] }

-- The slot cannot be made the one to start, and the pending record cannot be taken back.
abbrev stuck_partitions : Partitions
stuck_partitions = record partitions { set_boot = λ f s. (false, f) }

abbrev stuck_updater : Updater stuck_partitions stream
stuck_updater = record {
  flash = updater.flash;
  source = updater.source;
  guard = guard;
  readies = 0;
}

still_pending :
    (apply_ota plain_crypto plain_hash stuck_partitions stream key
      (record taken { clear_ok = false })
      true
      true
      offer
      stuck_updater).1.guard.nvs
    ≡ some (record fresh_state {
      has_pending = true;
      pending_version = 8589934592;
      pending_sha = offer.sha256;
    })
unfolding apply_ota is_unusable_key is_sentinel_key is_small_order_key is_one_of clear_sign decide
    feed feed_stream finish finish_stream open_stream open_verifier ota_signed_preamble version_ok
    bytes_eq check call check_version note_parsed note_pending save parse_ota_version
    ota_version_code code_or_invalid read_version read_part is_digit read_digits expect_dot
    starts_with_digit expect_end push_part digits json_int low_digits reversed chunk_rounds
    commit_image download end_image invalidate_slot judge_image next_chunk read_back tell_ready
    verify_slot write_image slice overlay clear_pending
still_pending = refl

-- An image of 32 bytes, which in the toy world is its own hash.
abbrev image_bytes : Bytes
image_bytes = replicate 32 17

abbrev manifest_json : Bytes
manifest_json =
    codes
      "{\"available\":true,\"version\":\"2.0.0\",\"url\":\"/v1/device/firmware/images/2\",\"size\":32,\"sha256\":\""
    ++ replicate 64 b'1'
    ++ codes "\",\"signature\":\""
    ++ replicate 128 b'2'
    ++ codes "\"}"

abbrev manifest : OtaManifest
manifest = record {
  available = true;
  version = codes "2.0.0";
  url = codes "/v1/device/firmware/images/2";
  size = 32;
  sha256 = image_bytes;
  signature = replicate 64 34;
}

manifest_parses : parse_ota_manifest manifest_json ≡ some manifest
unfolding parse_ota_manifest parse_offer offered usable_version usable_url positive_size
    decoded_bytes url_ok ota_url_is_gateway_path all_path_chars path_char has_dots find_value
    after_prefix quoted after_colon colon_first skip_spaces is_space read_signed read_unsigned
    json_digit read_value parse_json_int signed_value parse_json_bool bool_value json_value_start
    has_prefix not_at_end parse_json_string string_value read_string push_char escapable negated
    decode_hex_exact decode_pairs nibble put_byte parse_ota_version ota_version_code code_or_invalid
    read_version read_part is_digit read_digits expect_dot starts_with_digit expect_end push_part
    bytes_eq
manifest_parses = refl

abbrev image_world : World
image_world = record world { fetch = λ link q. (200, 32, image_bytes, link) }

abbrev asking : Node image_world
asking = record {
  link = record { code = 200; response = manifest_json } ∷ [];
  identity = (node []).identity;
  ring = (node []).ring;
  clock = (node []).clock;
  status = (node []).status;
  guard = (node []).guard;
  seq = (node []).seq;
  backoff_ms = (node []).backoff_ms;
  firmware_available = (node []).firmware_available;
  rejected_sha = (node []).rejected_sha;
  flash = (node []).flash;
}

asking_parses :
    parse_ota_manifest (manifest_reply image_world draw asking).0.response ≡ some manifest
unfolding signed_get
asking_parses = manifest_parses

asking_reboots : (check_firmware image_world taken true draw draw asking).0 ≡ rebooting
unfolding signed_get check_firmware take_manifest download_image after_update offer_of
    is_refused_sha wrong_length updater_of apply_ota is_unusable_key is_sentinel_key
    is_small_order_key is_one_of clear_sign decide feed feed_stream finish finish_stream open_stream
    open_verifier ota_signed_preamble version_ok bytes_eq check call check_version note_parsed
    note_pending save parse_ota_version ota_version_code code_or_invalid read_version read_part
    is_digit read_digits expect_dot starts_with_digit expect_end push_part digits json_int
    low_digits reversed chunk_rounds commit_image download end_image invalidate_slot judge_image
    next_chunk read_back tell_ready verify_slot write_image slice overlay parse_ota_manifest
    parse_offer offered usable_version usable_url positive_size decoded_bytes url_ok
    ota_url_is_gateway_path all_path_chars path_char has_dots find_value after_prefix quoted
    after_colon colon_first skip_spaces is_space read_signed read_unsigned json_digit read_value
    parse_json_int signed_value parse_json_bool bool_value json_value_start has_prefix not_at_end
    parse_json_string string_value read_string push_char escapable negated decode_hex_exact
    decode_pairs nibble put_byte
asking_reboots = refl

check_firmware-IsInstalled_example :
    IsNewer asking.guard manifest.version manifest.sha256
    × IsInstalled plain_crypto plain_hash partitions image_world.release_key
        (offer_of manifest)
        (check_firmware image_world taken true draw draw asking).1.flash
        (check_firmware image_world taken true draw draw asking).1.guard
unfolding offer_of
check_firmware-IsInstalled_example =
    check_firmware-IsInstalled image_world plain_crypto-IsStreaming plain_hash-IsIncremental
      partitions-IsPartitioned taken true draw draw asking manifest asking_parses (omega arith)
      asking_reboots
