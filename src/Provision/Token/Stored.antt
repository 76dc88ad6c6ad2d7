-- ===== src/Provision/Token/Stored.antt =====
-- The provisioning token from the form to the record that is loaded.
use presence_platform.Prelude.{
  ℕ, suc, ◌≡◌, ◌↔◌, refl, ap, subst, ◌∙◌, true, false, ◌&&◌, some, [], ◌∷◌, ◌++◌, Bytes, length,
  take, get_elem-append, take-append_exact, ◌==◌, if◌then◌else◌, replicate, Bool-cases, inl, inr,
  arith,
}
use presence_platform.Provision.Token.{
  ProvisionTokenRecord, ok, trim_spaces, token_hex_digit, all_hex, validate_provision_token,
  lower_digit, lower_token, zero_token_record, token_record, make_token_record, lower_hex_digit,
  all_lower_hex, ends_at, token_record_usable, load_usable_token,
}

length-lower_token : (s : Bytes) → length (lower_token s) ≡ length s
unfolding lower_token
length-lower_token [] = refl
length-lower_token (c ∷ s) = ap suc (length-lower_token s)

lower_lem : (c : ℕ) → token_hex_digit c ≡ true → lower_hex_digit (lower_digit c) ≡ true
unfolding token_hex_digit lower_hex_digit lower_digit
lower_lem c h = ground arith

all_lower-lower_token : (s : Bytes) → all_hex s ≡ true → all_lower_hex (lower_token s) ≡ true
unfolding all_hex all_lower_hex lower_token
all_lower-lower_token [] h = refl
all_lower-lower_token (c ∷ s) h = ground (arith, lower_lem c, all_lower-lower_token s)

ends_token : (s : Bytes) → length s ≡ 64 → ends_at 64 (s ++ 0 ∷ []) ≡ true
unfolding ends_at
ends_token s h = ground (arith, get_elem-append s 0 64 h)

abbrev IsToken : Bytes → Type 0
IsToken s = (length s ≡ 64) × (all_hex s ≡ true)

valid_iff : (s : Bytes) → (validate_provision_token s ≡ ok) ↔ IsToken s
unfolding validate_provision_token
valid_iff s = (λ h. (ground arith, ground arith), λ (n, h). ground arith)

record_usable : (s : Bytes) → IsToken s → token_record_usable (token_record ok s) ≡ true
unfolding token_record_usable token_record
record_usable s (n, h) =
    let m : length (lower_token s) ≡ 64 = length-lower_token s ∙ n in
    rw
      (
        take-append_exact (lower_token s) (0 ∷ []) 64 m,
        ends_token (lower_token s) m,
        all_lower-lower_token s h,
      )
      refl

record_read :
    (s : Bytes)
    → IsToken s
    → (load_usable_token (some (token_record ok s)) ≡ (true, token_record ok s))
      × (take 64 (token_record ok s).token ≡ lower_token s)
unfolding load_usable_token
record_read s (n, h) = (
  rw (record_usable s (n, h)) refl,
  unfold token_record in take-append_exact (lower_token s) (0 ∷ []) 64 (length-lower_token s ∙ n),
)

refused_token :
    (s : Bytes)
    → (length s == 64 && all_hex s) ≡ false
    → token_record (validate_provision_token s) s ≡ zero_token_record
unfolding validate_provision_token token_record
refused_token s h = ground arith

unusable_zero : load_usable_token (some zero_token_record) ≡ (false, zero_token_record)
unfolding load_usable_token token_record_usable
unusable_zero = refl

pub token_read_back :
    (typed : Bytes)
    → let s = trim_spaces typed in
      let r = (make_token_record typed).1 in
      let accepted = length s == 64 && all_hex s in
      (((make_token_record typed).0 ≡ ok) ↔ (accepted ≡ true))
      × (load_usable_token (some r) ≡ (accepted, if accepted then r else zero_token_record))
      × (take 64 r.token ≡ (if accepted then lower_token s else replicate 64 0))
unfolding make_token_record
token_read_back typed =
    let s = trim_spaces typed in
    let iff = valid_iff s in
    elim (Bool-cases (length s == 64 && all_hex s)) [
      | inl h ↦
          let valid = iff.1 (ground arith, ground arith) in
          let (usable, same) = record_read s (ground arith, ground arith) in
          rw (valid, h) ((λ e. refl, λ e. refl), usable, same)
      | inr h ↦
          rw (refused_token s h, h)
            (
              (λ e. absurd (ground (arith, iff.0 e)), λ e. absurd (ground arith)),
              unusable_zero,
              refl,
            )
    ]

pub usable_if_ok :
    (typed : Bytes) (r : ProvisionTokenRecord)
    → make_token_record typed ≡ (ok, r)
    → load_usable_token (some r) ≡ (true, r)
usable_if_ok typed r h =
    let (accepts, read, _) = token_read_back typed in
    let accepted = accepts.0 (ap (λ x. x.0) h) in
    let same : (make_token_record typed).1 ≡ r = ap (λ x. x.1) h in
    subst (λ x. load_usable_token (some x) ≡ (true, x)) same (rw accepted at read)
