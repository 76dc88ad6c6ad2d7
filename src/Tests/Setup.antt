-- ===== src/Tests/Setup.antt =====
-- A terminal set up over its portal.
use presence_platform.Prelude.{
  ◌≡◌, ◌≤◌, ◌↔◌, refl, true, false, some, none, [], ◌∷◌, Bytes, bytes_eq, codes, length, arith,
}
use presence_platform.Setup.Hold.Presses.{first_late}
use presence_platform.Setup.Fallback.{StationFallback, ms_until_due}
use presence_platform.Setup.Fields.{
  make_credentials, validate_ssid, validate_password, is_ok, all_bytes, ssid_byte, passphrase_byte,
  c_string, load_usable_credentials,
}
use presence_platform.Setup.Fields.Stored.{stored_usable}
use presence_platform.Setup.Form.{
  missing, percent_decode, put, plain, hex_pair, hex_value, parse_wifi_form, form_field_cap, pieces,
  cut, read_piece, read_pieces, read_pair, set_field, set_once, finish_form, complete, token_of,
}
use presence_platform.Setup.Form.Decoding.{Encodes, decode_iff}
use presence_platform.Setup.Access.{valid_setup_key, key_chars, occurs}

fires_at :
    first_late 10000 4294967000 (4294967000 ∷ 4000 ∷ 9704 ∷ 12000 ∷ [])
    ≡ false ∷ false ∷ true ∷ false ∷ []
unfolding first_late
fires_at = refl

abbrev waiting : StationFallback
waiting = record {
  window_ms = 180000;
  window_start_ms = 4294960000;
  started = true;
  joined = false;
}

not_yet : 172704 ≤ ms_until_due 0 waiting
unfolding ms_until_due
not_yet = omega arith

good_fields : is_ok (make_credentials (codes "ward 3") (codes "correct horse")).0 ≡ true
unfolding make_credentials validate_ssid validate_password is_ok all_bytes ssid_byte passphrase_byte
good_fields = refl

stored_usable_example :
    let c = (make_credentials (codes "ward 3") (codes "correct horse")).1 in
    (c_string c.ssid ≡ some (codes "ward 3"))
    × (c_string c.password ≡ some (codes "correct horse"))
    × (load_usable_credentials (some c) ≡ (true, c))
stored_usable_example = stored_usable (codes "ward 3") (codes "correct horse") good_fields

decode_iff_example :
    (percent_decode 5 (codes "a+%2Bb") ≡ some (codes "a +b"))
    ↔ (Encodes (codes "a+%2Bb") (codes "a +b") × (length (codes "a +b") ≤ 5))
decode_iff_example = decode_iff 5 (codes "a+%2Bb") (codes "a +b")

decoded : percent_decode 5 (codes "a+%2Bb") ≡ some (codes "a +b")
unfolding percent_decode put plain hex_pair hex_value
decoded = refl

no_room : percent_decode 2 (codes "a+b") ≡ none
unfolding percent_decode put plain hex_pair hex_value
no_room = refl

ssid_text : percent_decode form_field_cap (codes "ward+3") ≡ some (codes "ward 3")
unfolding percent_decode put plain hex_pair hex_value
ssid_text = refl

password_text : percent_decode form_field_cap (codes "p%26ss=word") ≡ some (codes "p&ss=word")
unfolding percent_decode put plain hex_pair hex_value
password_text = refl

no_password : (parse_wifi_form (codes "ssid=a")).0 ≡ missing
unfolding parse_wifi_form pieces cut read_piece read_pieces read_pair set_field set_once finish_form
    complete token_of percent_decode put plain hex_pair hex_value bytes_eq
no_password = refl

abbrev bench_key : Bytes
bench_key = codes "2345-abcd-wxyz-9876"

bench_key_valid : valid_setup_key bench_key ≡ true
unfolding valid_setup_key key_chars occurs
bench_key_valid = refl
