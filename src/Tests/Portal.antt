-- ===== src/Tests/Portal.antt =====
-- The portal: a request, an escaped name, and a form that is stored.
use presence_platform.Prelude.{
  All, ℕ, ◌+◌, ◌≤◌, ◌<◌, ◌≡◌, ◌≢◌, ◌⊎◌, refl, true, Option, none, some, List, [], ◌∷◌, ◌++◌, Bytes,
  bytes_eq, codes, length, take, drop, replicate,
}
use presence_platform.Provision.Token.{
  ProvisionTokenRecord, validate_provision_token, token_hex_digit, all_hex, trimmable, trim_front,
  trim_back, trim_spaces, lower_digit, lower_token, token_record, make_token_record,
}
use presence_platform.Setup.Access.{route_portal}
use presence_platform.Setup.Fields.{
  WifiFieldError, WifiCredentials, is_ok, all_bytes, ssid_byte, validate_ssid, passphrase_byte,
  is_hex_digit, validate_password, padded, make_credentials, load_usable_credentials,
}
use presence_platform.Setup.Form.{
  hex_value, hex_pair, put, plain, percent_decode, pieces, cut, set_once, set_field, read_pair,
  read_piece, read_pieces, token_of, complete, finish_form, parse_wifi_form,
}
use presence_platform.Setup.Http.{
  HttpRequest, HttpParse, incomplete, index_of, byte_is, ascii_lower, ascii_i_equals, find_head,
  all_upper, all_visible, path_of, http_version, read_target, read_method, read_request_line,
  is_blank, skip_blanks, drop_blanks, read_length, first_length, read_header, split_header,
  line_end, header_at, scan_headers, content_length, take_body, parse_head, parse_http_request,
}
use presence_platform.Setup.Http.Head.{head_mark}
use presence_platform.Setup.Http.Request.{BeginsWith}
use presence_platform.Setup.Http.Accepted.{IsCapital, IsPathChar, accepted_request, parse_returns}
use presence_platform.Setup.Pages.{TokenField}
use presence_platform.Setup.Portal.{
  Store, opened, saved, WifiPortal, same_token, same_credentials, reads_back, save_checked,
  token_step, checked_token, finish_save, store_credentials, store_all, save_fields, save_form,
  save_request, answer, handle_open, is_shut, handle, tick,
}
use presence_platform.Setup.Portal.Stores.{loaded}
use presence_platform.Setup.Portal.Runs.{
  Event, request, ticked, perform, run, saved_run_has_credentials,
}

abbrev post : Bytes
post = codes "POST /save?x HTTP/1.1\r\nHost: a\r\ncontent-length:  2\r\n\r\nok"

abbrev posted : HttpRequest
posted = record { method = codes "POST"; path = codes "/save"; body = codes "ok" }

post_parses : parse_http_request post ≡ some (HttpParse.ok posted)
unfolding parse_http_request find_head index_of parse_head byte_is read_request_line read_method
    all_upper read_target http_version bytes_eq all_visible path_of scan_headers line_end header_at
    split_header is_blank skip_blanks drop_blanks read_header ascii_i_equals ascii_lower
    first_length read_length take_body content_length
post_parses = refl

accepted_request_example :
    ((0 < 4) × (4 ≤ 8) × All IsCapital (codes "POST"))
    × (((t : Bytes) × (codes "/save" ≡ b'/' ∷ t)) × All IsPathChar (codes "/save"))
    × BeginsWith post (codes "POST") (codes "/save")
    × (2 ≤ 512)
    × ((head_end : ℕ) × (head_end ≤ 1024)
        × (take 4 (drop head_end post) ≡ head_mark)
        × ((j : ℕ) → j < head_end → take 4 (drop j post) ≢ head_mark)
        × (head_end + 4 + 2 ≤ length post)
        × (codes "ok" ≡ take 2 (drop (head_end + 4) post)))
accepted_request_example = accepted_request post posted post_parses

parse_returns_example :
    (r : HttpParse) × (parse_http_request post ≡ some r) × ((r ≢ incomplete) ⊎ (length post ≤ 1539))
parse_returns_example = parse_returns post

-- A store that keeps what was saved last.
abbrev cell : (R : Type 0) → Store (Option R) R
cell R = record { save = λ s r. (true, some r); load = λ s. s }

abbrev portal : WifiPortal (Option WifiCredentials) (Option ProvisionTokenRecord)
portal = record {
  store = some none;
  token_store = some none;
  token_field = TokenField.required;
  ap_ssid = codes "presence-000001";
  origin = codes "http://192.168.4.1/";
  saved_ssid = [];
  timeout_ms = 300000;
  reboot_delay_ms = 1500;
  start_ms = 0;
  saved_ms = 0;
  state = opened;
}

abbrev form_post : HttpParse
form_post = HttpParse.ok (record {
  method = codes "POST";
  path = codes "/save";
  body = codes "ssid=a&password=&token=AB" ++ replicate 62 b'0';
})

abbrev portal_after : WifiPortal (Option WifiCredentials) (Option ProvisionTokenRecord)
portal_after = (handle (cell WifiCredentials) (cell ProvisionTokenRecord) form_post 5000 portal).1

form_is_saved : portal_after.state ≡ saved
unfolding handle is_shut handle_open answer save_request save_form save_fields store_all
    store_credentials finish_save save_checked reads_back same_token same_credentials token_step
    checked_token route_portal bytes_eq validate_provision_token token_hex_digit all_hex trimmable
    trim_front trim_back trim_spaces lower_digit lower_token token_record make_token_record is_ok
    all_bytes ssid_byte validate_ssid passphrase_byte is_hex_digit validate_password padded
    make_credentials hex_value hex_pair put plain percent_decode pieces cut set_once set_field
    read_pair read_piece read_pieces token_of complete finish_form parse_wifi_form
form_is_saved = refl

abbrev events : List Event
events = ticked 10 ∷ request form_post 5000 ∷ []

events_save : (run (cell WifiCredentials) (cell ProvisionTokenRecord) events portal).state ≡ saved
unfolding run perform tick
events_save = form_is_saved

saved_run_has_credentials_example :
    (password : Bytes) × (creds : WifiCredentials) × (make_credentials
        (run (cell WifiCredentials) (cell ProvisionTokenRecord) events portal).saved_ssid
        password
      ≡ (WifiFieldError.ok, creds))
    × (loaded
          (cell WifiCredentials)
          (run (cell WifiCredentials) (cell ProvisionTokenRecord) events portal).store
        ≡ some creds)
    × (load_usable_credentials (
          loaded
            (cell WifiCredentials)
            (run (cell WifiCredentials) (cell ProvisionTokenRecord) events portal).store)
        ≡ (true, creds))
saved_run_has_credentials_example =
    saved_run_has_credentials (cell WifiCredentials) (cell ProvisionTokenRecord) events portal refl
      events_save
