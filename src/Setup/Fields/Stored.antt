-- ===== src/Setup/Fields/Stored.antt =====
-- What a form's fields become on the way through NVS.
use presence_platform.Prelude.{
  ℕ, zero, suc, ◌-◌, ◌<◌, ◌≡◌, refl, ap, Bool, true, not, some, [], ◌∷◌, ◌++◌, Bytes, length,
  replicate, ◌==◌, arith,
}
use presence_platform.Setup.Fields.{
  is_ok, all_bytes, ssid_byte, is_hex_digit, passphrase_byte, validate_ssid, validate_password,
  padded, make_credentials, c_string, both_valid, credentials_usable, load_usable_credentials,
  wifi_credentials_magic,
}

no_zero : ℕ → Bool
no_zero c = not (c == 0)

all_bytes_mono :
    (p q : ℕ → Bool)
    → ((c : ℕ) → p c ≡ true → q c ≡ true)
    → (s : Bytes) → all_bytes p s ≡ true
    → all_bytes q s ≡ true
unfolding all_bytes
all_bytes_mono p q f [] h = refl
all_bytes_mono p q f (c ∷ s) h = ground (arith, f c, all_bytes_mono p q f s)

c_string-append_zero :
    (s rest : Bytes) → all_bytes no_zero s ≡ true → c_string (s ++ 0 ∷ rest) ≡ some s
unfolding c_string all_bytes no_zero
c_string-append_zero [] rest h = refl
c_string-append_zero (c ∷ s) rest h = ground (arith, c_string-append_zero s rest)

replicate_positive : (n a : ℕ) → 0 < n → replicate n a ≡ a ∷ replicate (n - 1) a
replicate_positive zero a h = absurd (omega arith)
replicate_positive (suc n) a h = ap (λ k. a ∷ replicate k a) (omega arith)

c_string-padded :
    (n : ℕ) (s : Bytes) → length s < n → all_bytes no_zero s ≡ true → c_string (padded n s) ≡ some s
unfolding padded
c_string-padded n s h z =
    rw (replicate_positive (n - length s) 0 (omega arith)) (c_string-append_zero s _ z)

hex_not_zero : (c : ℕ) → is_hex_digit c ≡ true → no_zero c ≡ true
unfolding is_hex_digit no_zero
hex_not_zero c h = ground arith

printable_not_zero : (c : ℕ) → passphrase_byte c ≡ true → no_zero c ≡ true
unfolding passphrase_byte no_zero
printable_not_zero c h = ground arith

ssid_not_zero : (c : ℕ) → ssid_byte c ≡ true → no_zero c ≡ true
unfolding ssid_byte no_zero
ssid_not_zero c h = ground arith

empty_ok : (s : Bytes) → length s ≡ 0 → all_bytes no_zero s ≡ true
unfolding all_bytes
empty_ok [] h = refl
empty_ok (c ∷ s) h = absurd (omega arith)

ssid_ok :
    (s : Bytes) → is_ok (validate_ssid s) ≡ true → (length s < 33) × (all_bytes no_zero s ≡ true)
unfolding validate_ssid is_ok
ssid_ok s h = (ground arith, all_bytes_mono ssid_byte no_zero ssid_not_zero s (ground arith))

password_ok :
    (s : Bytes)
    → is_ok (validate_password s) ≡ true
    → (length s < 65) × (all_bytes no_zero s ≡ true)
unfolding validate_password is_ok
password_ok s h = (
  ground arith,
  ground (
    arith,
    empty_ok s,
    all_bytes_mono is_hex_digit no_zero hex_not_zero s,
    all_bytes_mono passphrase_byte no_zero printable_not_zero s,
  ),
)

made_fields :
    (ssid password : Bytes)
    → is_ok (make_credentials ssid password).0 ≡ true
    → (is_ok (validate_ssid ssid) ≡ true) × (is_ok (validate_password password) ≡ true)
unfolding make_credentials
made_fields ssid password h = ground arith

made :
    (ssid password : Bytes)
    → is_ok (make_credentials ssid password).0 ≡ true
    → (make_credentials ssid password).1 ≡ record {
      magic = wifi_credentials_magic;
      ssid = padded 33 ssid;
      password = padded 65 password;
    }
unfolding make_credentials
made ssid password h = ground arith

-- If `makeCredentials` accepts a name and a password, the arrays of its record read back as C
-- strings to exactly these, and the record, loaded from NVS, is usable.
pub stored_usable :
    (ssid password : Bytes)
    → is_ok (make_credentials ssid password).0 ≡ true
    → let c = (make_credentials ssid password).1 in
      (c_string c.ssid ≡ some ssid)
      × (c_string c.password ≡ some password)
      × (load_usable_credentials (some c) ≡ (true, c))
unfolding load_usable_credentials credentials_usable both_valid
stored_usable ssid password h =
    let (s_ok, p_ok) = made_fields ssid password h in
    let (s_short, s_text) = ssid_ok ssid s_ok in
    let (p_short, p_text) = password_ok password p_ok in
    let s_read = c_string-padded 33 ssid s_short s_text in
    let p_read = c_string-padded 65 password p_short p_text in
    rw (made ssid password h) (s_read, p_read, simp (s_read, p_read, s_ok, p_ok))
