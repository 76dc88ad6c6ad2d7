-- ===== src/Setup/Pages.antt =====
-- firmware/src/wifi_provision.h: the pages of the setup portal and the response around them, and the
-- texts of its errors; firmware/src/provision.h: `tokenErrorText`.
pub mod Escaping
use presence_platform.Prelude.{
  ℕ, Bool, true, false, Option, none, some, [], ◌∷◌, ◌++◌, Bytes, codes, length, ◌==◌,
  if◌then◌else◌,
}
use presence_platform.Decimal.{digits}
use presence_platform.Setup.Fields.{WifiFieldError}
use presence_platform.Setup.Form.{FormError}
use presence_platform.Provision.Token.{TokenError}

unfoldable pub wifi_field_error_text : WifiFieldError → Bytes
wifi_field_error_text WifiFieldError.ok = codes ""
wifi_field_error_text WifiFieldError.ssid_missing = codes "Enter the network name."
wifi_field_error_text WifiFieldError.ssid_too_long =
    codes "The network name can be at most 32 bytes."
wifi_field_error_text WifiFieldError.ssid_bad_byte =
    codes "The network name contains a control character."
wifi_field_error_text WifiFieldError.password_too_short =
    codes "A Wi-Fi password is at least 8 characters. Leave it empty only for an open network."
wifi_field_error_text WifiFieldError.password_too_long =
    codes "The password can be at most 63 characters (or a 64-digit hex key)."
wifi_field_error_text WifiFieldError.password_bad_byte =
    codes "The password can only use printable ASCII characters."
wifi_field_error_text WifiFieldError.password_bad_hex =
    codes "A 64-character password must be a hex key (0-9, a-f)."

unfoldable pub form_error_text : FormError → Bytes
form_error_text FormError.ok = codes ""
form_error_text FormError.malformed = codes "The form could not be read. Please try again."
form_error_text FormError.duplicate =
    codes "The form was sent with a field twice. Please try again."
form_error_text FormError.missing = codes "Enter the network name and password."
form_error_text FormError.field_too_long = codes "A field is too long."

unfoldable pub token_error_text : TokenError → Bytes
token_error_text TokenError.ok = codes ""
token_error_text TokenError.missing =
    codes "Enter the provisioning token from the installation sheet."
token_error_text TokenError.bad_length = codes "The provisioning token is 64 characters long."
token_error_text TokenError.bad_hex =
    codes "The provisioning token uses only the characters 0-9 and a-f."

-- What the loop appends for one character.
unfoldable pub escaped : ℕ → Bytes
escaped c =
    if c == b'&'
    then codes "&amp;"
    else if c == b'<'
    then codes "&lt;"
    else if c == b'>'
    then codes "&gt;"
    else if c == b'"'
    then codes "&quot;"
    else if c == 39
    then codes "&#39;"
    else c ∷ []

unfoldable pub html_escape : Bytes → Bytes
html_escape [] = []
html_escape (c ∷ cs) = escaped c ++ html_escape cs

-- `std::to_string` of a number that is not negative.
unfoldable pub to_string : ℕ → Bytes
to_string n = if n == 0 then b'0' ∷ [] else digits n

unfoldable pub response_head : ℕ → Bytes → ℕ → Bytes → Bytes
response_head status reason size extra_headers =
    codes "HTTP/1.1 "
    ++ to_string status
    ++ codes " "
    ++ reason
    ++ codes
        "\r\nContent-Type: text/html; charset=utf-8\r\nCache-Control: no-store\r\nContent-Security-Policy: default-src 'none'; style-src 'unsafe-inline'; form-action 'self'\r\nX-Content-Type-Options: nosniff\r\nReferrer-Policy: no-referrer\r\nConnection: close\r\n"
    ++ extra_headers
    ++ codes "Content-Length: "
    ++ to_string size
    ++ codes "\r\n\r\n"

unfoldable pub http_response : ℕ → Bytes → Bytes → Bool → Bytes → Bytes
http_response status reason body include_body extra_headers =
    response_head status reason (length body) extra_headers ++ (if include_body then body else [])

unfoldable pub portal_page : Bytes → Bytes → Bytes
portal_page title inner =
    codes
      "<!doctype html><html lang=\"en\"><head><meta charset=\"utf-8\"><meta name=\"viewport\" content=\"width=device-width,initial-scale=1\"><title>"
    ++ html_escape title
    ++ codes
        "</title><style>body{font-family:system-ui,sans-serif;max-width:26rem;margin:2rem auto;padding:0 1rem;color:#222}label{display:block;margin-top:1rem;font-weight:600}input{width:100%;box-sizing:border-box;padding:.6rem;font-size:1rem;margin-top:.3rem}button{margin-top:1.5rem;padding:.7rem 1.2rem;font-size:1rem}.err{background:#fde8e8;border:1px solid #e0a0a0;padding:.6rem;margin-top:1rem}.muted{color:#666;font-size:.9rem}</style></head><body>"
    ++ inner
    ++ codes "</body></html>"

pub data TokenField : Type 0 where
  hidden required optional : TokenField

-- The paragraph of the error; an empty error shows none, as a null one does.
unfoldable pub error_part : Bytes → Bytes
error_part [] = []
error_part (c ∷ cs) =
    codes "<p class=\"err\" role=\"alert\">" ++ html_escape (c ∷ cs) ++ codes "</p>"

unfoldable pub token_part : TokenField → Bytes
token_part hidden = []
token_part required =
    codes
      "<label for=\"token\">Provisioning token</label><input id=\"token\" name=\"token\" type=\"password\" maxlength=\"80\" autocomplete=\"off\" autocapitalize=\"none\" autocorrect=\"off\" spellcheck=\"false\""
    ++ codes " required>"
    ++ codes "<p class=\"muted\">The 64-character code from this terminal's installation sheet.</p>"
token_part optional =
    codes
      "<label for=\"token\">Provisioning token</label><input id=\"token\" name=\"token\" type=\"password\" maxlength=\"80\" autocomplete=\"off\" autocapitalize=\"none\" autocorrect=\"off\" spellcheck=\"false\""
    ++ codes ">"
    ++ codes "<p class=\"muted\">A token is already stored. Leave this empty to keep it.</p>"

unfoldable pub portal_form_page : Bytes → Bytes → Bytes → TokenField → Bytes
portal_form_page ap_ssid prefill_ssid error token = portal_page (codes "Terminal Wi-Fi setup") (
    codes "<h1>Connect this terminal to Wi-Fi</h1><p class=\"muted\">Terminal "
    ++ html_escape ap_ssid
    ++ codes "</p>"
    ++ error_part error
    ++ codes
        "<form method=\"post\" action=\"/save\"><label for=\"ssid\">Network name (SSID)</label><input id=\"ssid\" name=\"ssid\" maxlength=\"32\" required autocapitalize=\"none\" autocorrect=\"off\" value=\""
    ++ html_escape prefill_ssid
    ++ codes
        "\"><label for=\"password\">Password</label><input id=\"password\" name=\"password\" type=\"password\" maxlength=\"64\" autocomplete=\"off\"><p class=\"muted\">Leave the password empty only for an open network.</p>"
    ++ token_part token
    ++ codes "<button type=\"submit\">Save and restart</button></form>")

unfoldable pub portal_saved_page : Bytes → Bytes
portal_saved_page ssid = portal_page (codes "Saved") (
    codes "<h1>Saved</h1><p>The terminal is restarting to join <strong>"
    ++ html_escape ssid
    ++ codes
        "</strong>. This setup network will disappear.</p><p class=\"muted\">If the terminal cannot join that network, this setup network comes back after a few minutes, with the same password. Holding its BOOT button for 10 seconds also starts setup again.</p>")
