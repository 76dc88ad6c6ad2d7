-- ===== src/Setup/Access/Keys.antt =====
-- The setup key from the bench's serial line to NVS.
use presence_platform.Prelude.{
  ℕ, ◌<◌, ◌≡◌, refl, true, some, [], ◌∷◌, ◌++◌, Bytes, bytes_eq, codes, length, take,
  get_elem-append, take-append_exact, ==_ne, lt→ltb, le→ltb-false, arith,
}
use presence_platform.Setup.Access.{
  setup_ap_key_magic, valid_setup_key, make_setup_key, ends_at, setup_key_usable,
  load_usable_setup_key, set_key, parse_setup_command,
}

key_length : (key : Bytes) → valid_setup_key key ≡ true → length key ≡ 19
unfolding valid_setup_key
key_length key h = ground arith

key_command :
    (key : Bytes)
    → 0 < length key
    → parse_setup_command (codes "SETUP-KEY " ++ key) ≡ (set_key, key)
unfolding parse_setup_command bytes_eq
key_command key h =
    let line = codes "SETUP-KEY " ++ key in
    rw
      (
        le→ltb-false (length line) 6 (omega arith),
        ==_ne (length line) 8 (omega arith),
        lt→ltb 10 (length line) (omega arith),
      )
      refl

made_key :
    (key : Bytes)
    → valid_setup_key key ≡ true
    → make_setup_key key ≡ (true, record { magic = setup_ap_key_magic; key = key ++ 0 ∷ [] })
unfolding make_setup_key
made_key key h = rw h refl

ends_key : (s : Bytes) (n : ℕ) → length s ≡ n → ends_at n (s ++ 0 ∷ []) ≡ true
unfolding ends_at
ends_key s n h = ground (arith, get_elem-append s 0 n h)

usable_key :
    (key : Bytes)
    → valid_setup_key key ≡ true
    → setup_key_usable (record { magic = setup_ap_key_magic; key = key ++ 0 ∷ [] }) ≡ true
unfolding setup_key_usable
usable_key key h =
    let n = key_length key h in rw (take-append_exact key (0 ∷ []) 19 n, ends_key key 19 n, h) refl

-- A valid setup key sent behind `SETUP-KEY ` is recognised as that key, makes a record that is
-- usable when it is loaded, and stands in the record's first 19 bytes.
pub command_stores_key :
    (key : Bytes)
    → valid_setup_key key ≡ true
    → let k = (make_setup_key key).1 in
      (parse_setup_command (codes "SETUP-KEY " ++ key) ≡ (set_key, key))
      × ((make_setup_key key).0 ≡ true)
      × (load_usable_setup_key (some k) ≡ (true, k))
      × (take 19 k.key ≡ key)
unfolding load_usable_setup_key
command_stores_key key h =
    let n = key_length key h in
    rw (made_key key h) (
      key_command key (omega arith),
      refl,
      rw (usable_key key h) refl,
      take-append_exact key (0 ∷ []) 19 n,
    )
