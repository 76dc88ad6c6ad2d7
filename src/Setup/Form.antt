-- ===== src/Setup/Form.antt =====
-- firmware/src/wifi_provision.h: the body of the setup form, `hexValue`, `percentDecode` and
-- `parseWifiForm`. What a failed `percentDecode` leaves in its output is not used by its callers, so
-- a result `false` is `none`.
pub mod Decoding
pub mod Errors
pub mod Reading
use presence_platform.Prelude.{
  ℕ, zero, suc, ◌+◌, ◌-◌, ◌*◌, Bool, true, false, not, ◌&&◌, ◌||◌, Option, none, some, List, [],
  ◌∷◌, Bytes, bytes_eq, codes, length, ◌==◌, ltb, leb, if◌then◌else◌,
}

abbrev pub form_field_cap : ℕ
form_field_cap = 128

-- `none` is -1.
unfoldable pub hex_value : ℕ → Option ℕ
hex_value c =
    if leb b'0' c && leb c b'9'
    then some (c - b'0')
    else if leb b'a' c && leb c b'f'
    then some (c - b'a' + 10)
    else if leb b'A' c && leb c b'F'
    then some (c - b'A' + 10)
    else none

-- `(hi << 4) | lo`, unless one of the two is -1.
unfoldable pub hex_pair : Option ℕ → Option ℕ → Option ℕ
hex_pair (some hi) (some lo) = some (hi * 16 + lo)
hex_pair _ _ = none

-- The check of the cap, and `*out += c`; `room` is `cap - out->size()`.
unfoldable pub put : ℕ → Option ℕ → Option Bytes → Option Bytes
put zero c rest = none
put (suc room) (some c) (some rest) = some (c ∷ rest)
put (suc room) _ _ = none

-- A byte that is not part of an escape: `+` is a space, and a `%` has too little behind it.
unfoldable pub plain : ℕ → Option ℕ
plain c = if c == b'+' then some b' ' else if c == b'%' then none else some c

-- The loop of `percentDecode`, with room for `room` more bytes.
unfoldable pub percent_decode : ℕ → Bytes → Option Bytes
percent_decode room [] = some []
percent_decode room (c ∷ []) = put room (plain c) (some [])
percent_decode room (c ∷ (h ∷ [])) = put room (plain c) (percent_decode (room - 1) (h ∷ []))
percent_decode room (c ∷ (h ∷ (l ∷ rest))) =
    let after = percent_decode (room - 1) rest in
    let next = percent_decode (room - 1) (h ∷ (l ∷ rest)) in
    if c == b'%'
    then put room (hex_pair (hex_value h) (hex_value l)) after
    else put room (plain c) next

pub data FormError : Type 0 where
  ok malformed duplicate missing field_too_long : FormError

pub record WifiForm : Type 0 where
  pub ssid : Bytes
  pub password : Bytes
  pub token : Bytes
  pub have_token : Bool

abbrev pub empty_form : WifiForm
empty_form = record { ssid = []; password = []; token = []; have_token = false }

-- The fields read so far: `none` where `have...` is false.
pub record Fields : Type 0 where
  pub ssid : Option Bytes
  pub password : Option Bytes
  pub token : Option Bytes

abbrev pub no_fields : Fields
no_fields = record { ssid = none; password = none; token = none }

-- The pieces of a text between the bytes `sep`: the first piece and the others.
unfoldable pub pieces : ℕ → Bytes → Bytes × List Bytes
pieces sep [] = ([], [])
pieces sep (c ∷ cs) =
    let (first, others) = pieces sep cs in
    if c == sep then ([], first ∷ others) else (c ∷ first, others)

-- The text before the first `sep`, and the text behind it, empty where there is none.
unfoldable pub cut : ℕ → Bytes → Bytes × Bytes
cut sep [] = ([], [])
cut sep (c ∷ cs) =
    let (before, after) = cut sep cs in if c == sep then ([], cs) else (c ∷ before, after)

-- The `for` loop over a value that does not decode: is some `%` without two hex digits behind it?
unfoldable pub bad_escape : Bytes → Bool
bad_escape [] = false
bad_escape (c ∷ []) = c == b'%'
bad_escape (c ∷ (h ∷ [])) = c == b'%' || bad_escape (h ∷ [])
bad_escape (c ∷ (h ∷ (l ∷ rest))) =
    let next = bad_escape (h ∷ (l ∷ rest)) in
    elim (hex_pair (hex_value h) (hex_value l)) [ none ↦ c == b'%' || next | some v ↦ next ]

unfoldable pub value_error : Bytes → FormError
value_error v = if bad_escape v then malformed else field_too_long

-- A field that may be read once.
unfoldable pub set_once : Option Bytes → Bytes → Fields → Fields → FormError × Fields
set_once none value before after = (ok, after)
set_once (some v) value before after = (duplicate, before)

unfoldable pub set_field : Bytes → Bytes → Fields → FormError × Fields
unfolding set_once
set_field key value f =
    if bytes_eq key (codes "ssid")
    then set_once f.ssid value f (record f { ssid = some value })
    else if bytes_eq key (codes "password")
    then set_once f.password value f (record f { password = some value })
    else if bytes_eq key (codes "token")
    then set_once f.token value f (record f { token = some value })
    else (ok, f)

unfoldable pub read_pair : Option Bytes → Option Bytes → Bytes → Fields → FormError × Fields
read_pair none value raw f = (malformed, f)
read_pair (some key) none raw f = (value_error raw, f)
read_pair (some key) (some value) raw f = set_field key value f

-- One round of the loop: a piece between two `&`.
unfoldable pub read_piece : Bytes → Fields → FormError × Fields
read_piece piece f =
    let (key, value) = cut b'=' piece in
    if length piece == 0
    then (ok, f)
    else read_pair (percent_decode 32 key) (percent_decode form_field_cap value) value f

-- The loop, up to the first error.
unfoldable pub read_pieces : List Bytes → FormError × Fields → FormError × Fields
read_pieces [] r = r
read_pieces (p ∷ ps) (ok, f) = read_pieces ps (read_piece p f)
read_pieces (p ∷ ps) (e, f) = (e, f)

unfoldable pub token_of : Option Bytes → Bytes × Bool
token_of none = ([], false)
token_of (some t) = (t, true)

-- The required fields are there.
unfoldable pub complete : Option Bytes → Option Bytes → Bytes × Bool → FormError × WifiForm
complete (some s) (some p) (t, sent) =
    (ok, record { ssid = s; password = p; token = t; have_token = sent })
complete _ _ t = (missing, empty_form)

unfoldable pub finish_form : FormError × Fields → FormError × WifiForm
finish_form (ok, f) = complete f.ssid f.password (token_of f.token)
finish_form (e, f) = (e, empty_form)

unfoldable pub parse_wifi_form : Bytes → FormError × WifiForm
parse_wifi_form body =
    let (first, others) = pieces b'&' body in
    finish_form (read_pieces (first ∷ others) (ok, no_fields))
