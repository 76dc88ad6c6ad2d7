-- ===== src/Setup/Access.antt =====
-- firmware/src/wifi_provision.h: the password of the setup access point, the commands of the setup
-- bench, and the routes of the portal.
pub mod Keys
use presence_platform.Prelude.{
  ℕ, zero, suc, ◌+◌, ◌%◌, ◌/◌, Bool, true, false, not, ◌&&◌, ◌||◌, Option, none, some, List, [],
  ◌∷◌, ◌++◌, Bytes, bytes_eq, codes, length, take, drop, get_elem?, replicate, ◌==◌, ltb,
  if◌then◌else◌,
}
use presence_platform.Provision.Reply.{device_serial}

abbrev pub setup_key_alphabet : Bytes
setup_key_alphabet = codes "23456789abcdefghijkmnpqrstuvwxyz"

abbrev pub setup_key_chars : ℕ
setup_key_chars = 19

-- The array is whole, 20 bytes.
pub record SetupApKey : Type 0 where
  pub magic : ℕ
  pub key : Bytes

abbrev pub setup_ap_key_magic : ℕ
setup_ap_key_magic = 0x314B4153

-- `strchr(kSetupKeyAlphabet, c) != nullptr` for a `c` that is not 0.
unfoldable pub occurs : ℕ → Bytes → Bool
occurs c [] = false
occurs c (d ∷ ds) = c == d || occurs c ds

-- The loop of `validSetupKey`, at index `i`.
unfoldable pub key_chars : ℕ → Bytes → Bool
key_chars i [] = true
key_chars i (c ∷ cs) =
    let rest = key_chars (i + 1) cs in
    if i % 5 == 4 then c == b'-' && rest else not (c == 0) && occurs c setup_key_alphabet && rest

unfoldable pub valid_setup_key : Bytes → Bool
valid_setup_key s = length s == setup_key_chars && key_chars 0 s

abbrev pub zero_setup_key : SetupApKey
zero_setup_key = record { magic = 0; key = replicate 20 0 }

unfoldable pub make_setup_key : Bytes → Bool × SetupApKey
make_setup_key key =
    if valid_setup_key key
    then (true, record { magic = setup_ap_key_magic; key = key ++ 0 ∷ [] })
    else (false, zero_setup_key)

-- `k.key[kSetupKeyChars] == '\0'`
unfoldable pub ends_at : ℕ → Bytes → Bool
ends_at n s = elim (get_elem? s n) [ none ↦ false | some c ↦ c == 0 ]

unfoldable pub setup_key_usable : SetupApKey → Bool
setup_key_usable k =
    k.magic == setup_ap_key_magic
    && ends_at setup_key_chars k.key
    && valid_setup_key (take setup_key_chars k.key)

-- `none` is a store that is null or loads nothing.
unfoldable pub load_usable_setup_key : Option SetupApKey → Bool × SetupApKey
load_usable_setup_key none = (false, zero_setup_key)
load_usable_setup_key (some k) = if setup_key_usable k then (true, k) else (false, zero_setup_key)

pub data SetupCommand : Type 0 where
  no_command id set_key malformed : SetupCommand

-- The command and the key that it carries.
unfoldable pub parse_setup_command : Bytes → SetupCommand × Bytes
parse_setup_command line =
    let n = length line in
    if ltb n 6 || not (bytes_eq (take 6 line) (codes "SETUP-"))
    then (no_command, [])
    else if n == 8 && bytes_eq (take 8 line) (codes "SETUP-ID")
    then (id, [])
    else if ltb 10 n && bytes_eq (take 10 line) (codes "SETUP-KEY ")
    then (set_key, drop 10 line)
    else (malformed, [])

-- The last three bytes of the address of six.
unfoldable pub soft_ap_ssid : Bytes → Bytes
soft_ap_ssid mac = codes "presence-" ++ device_serial (drop 3 mac)

unfoldable pub setup_id_line : Bytes → Bool → Bytes
setup_id_line mac key_present =
    codes "SETUP-ID mac="
    ++ device_serial mac
    ++ codes " ssid="
    ++ soft_ap_ssid mac
    ++ (if key_present then codes " key=present" else codes " key=absent")

pub data PortalRoute : Type 0 where
  form save redirect not_found method_not_allowed : PortalRoute

unfoldable pub route_portal : Bytes → Bytes → PortalRoute
route_portal method path =
    let get = bytes_eq method (codes "GET") || bytes_eq method (codes "HEAD") in
    if bytes_eq path (codes "/")
    then (if get then form else method_not_allowed)
    else if bytes_eq path (codes "/save")
    then (if bytes_eq method (codes "POST")
        then save
        else if get
        then redirect
        else method_not_allowed)
    else if get
    then redirect
    else not_found
