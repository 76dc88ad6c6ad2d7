-- ===== src/Provision/Reply/Accepted.antt =====
-- Which gateway replies `parseProvisionResponse` accepts, and the request's serial number.
use presence_platform.Prelude.{
  IsByte, ℕ, ◌≤◌, ◌<◌, ◌≡◌, ◌↔◌, refl, ap, sym, ◌∙◌, true, Option, none, some, Bytes, codes, length,
  All, subst, arith,
}
use presence_platform.Json.Printing.{
  number, text, Fields, print_object, lookup, plain_fields, is_key, all_plain, is_plain,
}
use presence_platform.Json.Values.{int_of-some, text_of-some}
use presence_platform.Json.Reading.{int_of, text_of, in_range, readers_agree, string_agrees}
use presence_platform.Provision.Base64.Canonical.{encode_base64}
use presence_platform.Provision.Base64.Unique.{length-encode}
use presence_platform.Provision.Base64.Exact.{decode_base64_iff}
use presence_platform.Provision.Reply.Uuid.{IsUuid, is_uuid_text_iff}
use presence_platform.Provision.Reply.{
  ProvisionResult, is_uuid_text, numbers_ok, accept_numbers, decoded_secret, accept_fields,
  parse_provision_response,
}

decoded-some :
    (o : Option Bytes) (bs : Bytes)
    → decoded_secret o ≡ some bs
    → (o ≡ some (encode_base64 bs)) × (length bs ≡ 32) × All IsByte bs
unfolding decoded_secret
decoded-some none bs h = absurd (ground arith)
decoded-some (some t) bs h =
    let (pos, (n, (small, same))) = (decode_base64_iff t 32 bs).0 h in (ap some same, n, small)

encoded-decoded :
    (bs : Bytes)
    → length bs ≡ 32
    → All IsByte bs
    → decoded_secret (some (encode_base64 bs)) ≡ some bs
unfolding decoded_secret
encoded-decoded bs n small =
    (decode_base64_iff (encode_base64 bs) 32 bs).1 (omega arith, (n, (small, refl)))

abbrev Chosen : Option Bytes → Option Bytes → Option ℕ → Option ℕ → ProvisionResult → Type 0
Chosen id secret kv ts r =
    (id ≡ some r.device_id)
    × (is_uuid_text r.device_id ≡ true)
    × (secret ≡ some r.secret)
    × (kv ≡ some r.key_version)
    × (ts ≡ some r.server_time_ms)
    × (numbers_ok r.key_version r.server_time_ms ≡ true)

accept-Chosen :
    (id secret : Option Bytes) (kv ts : Option ℕ) (r : ProvisionResult)
    → accept_fields id secret kv ts ≡ some r
    → Chosen id secret kv ts r
unfolding accept_fields accept_numbers
accept-Chosen none secret kv ts r h = absurd (ground arith)
accept-Chosen (some i) none kv ts r h = absurd (ground arith)
accept-Chosen (some i) (some s) none ts r h = absurd (ground arith)
accept-Chosen (some i) (some s) (some k) none r h = absurd (ground arith)
accept-Chosen (some i) (some s) (some k) (some t) r h =
    let uuid : is_uuid_text i ≡ true = ground arith in
    let numbers : numbers_ok k t ≡ true = ground arith in
    let same : record { device_id = i; secret = s; key_version = k; server_time_ms = t } ≡ r =
      ground arith in
    subst (Chosen (some i) (some s) (some k) (some t)) same (refl, uuid, refl, refl, refl, numbers)

Chosen-accept :
    (id secret : Option Bytes) (kv ts : Option ℕ) (r : ProvisionResult)
    → Chosen id secret kv ts r
    → accept_fields id secret kv ts ≡ some r
unfolding accept_fields accept_numbers
Chosen-accept id secret kv ts r (ei, uuid, es, ek, et, numbers) =
    rw (ei, es, ek, et, uuid, numbers) refl

uuid_length : (s : Bytes) → is_uuid_text s ≡ true → length s ≤ 36
unfolding is_uuid_text
uuid_length s h = ground arith

-- The key version is a positive `int32_t`, the time a positive `int64_t`.
numbers_ok_iff :
    (kv ts : ℕ)
    → (numbers_ok kv ts ≡ true)
      ↔ ((1 ≤ kv) × (kv ≤ 2147483647) × (0 < ts) × (ts ≤ 9223372036854775807))
unfolding numbers_ok
numbers_ok_iff kv ts =
    (λ h. (ground arith, ground arith, ground arith, ground arith), λ h. ground arith)

-- The readers on a printed reply.
parse_printed :
    (fs : Fields)
    → plain_fields fs ≡ true
    → in_range (lookup (codes "key_version") fs) ≡ true
    → in_range (lookup (codes "server_time_ms") fs) ≡ true
    → parse_provision_response (print_object fs)
      ≡ accept_fields
          (text_of 36 (lookup (codes "device_id") fs))
          (decoded_secret (text_of 64 (lookup (codes "device_secret") fs)))
          (int_of (lookup (codes "key_version") fs))
          (int_of (lookup (codes "server_time_ms") fs))
unfolding parse_provision_response is_key all_plain is_plain
parse_printed fs plain hk ht =
    let id = string_agrees (codes "device_id") fs 36 refl plain in
    let secret = string_agrees (codes "device_secret") fs 64 refl plain in
    let (key_version, _, _) = readers_agree (codes "key_version") fs 0 refl plain hk in
    let (server_time, _, _) = readers_agree (codes "server_time_ms") fs 0 refl plain ht in
    rw (id, secret, key_version, server_time) refl

-- For a reply that is a flat JSON object without escapes, whose two numbers are 64-bit
-- patterns, `parseProvisionResponse` returns a result exactly if the fields say so: as device
-- id a UUID (36 characters, dashes at 8, 13, 18 and 23 and hex digits of either case
-- elsewhere), the base64 of 32 bytes as secret, a key version of 1 to 2^31 - 1 and a time of 1
-- to 2^63 - 1.
pub parse_printed_reply_iff :
    (fs : Fields) (r : ProvisionResult)
    → plain_fields fs ≡ true
    → in_range (lookup (codes "key_version") fs) ≡ true
    → in_range (lookup (codes "server_time_ms") fs) ≡ true
    → parse_provision_response (print_object fs) ≡ some r
      ↔ (lookup (codes "device_id") fs ≡ some (text r.device_id))
        × IsUuid r.device_id
        × (lookup (codes "device_secret") fs ≡ some (text (encode_base64 r.secret)))
        × (length r.secret ≡ 32)
        × All IsByte r.secret
        × (lookup (codes "key_version") fs ≡ some (number r.key_version))
        × (lookup (codes "server_time_ms") fs ≡ some (number r.server_time_ms))
        × (1 ≤ r.key_version)
        × (r.key_version ≤ 2147483647)
        × (0 < r.server_time_ms)
        × (r.server_time_ms ≤ 9223372036854775807)
parse_printed_reply_iff fs r plain hk ht =
    let same = parse_printed fs plain hk ht in
    (
      λ h.
          let (ei, uuid, es, ek, et, numbers) = accept-Chosen _ _ _ _ r (sym same ∙ h) in
          let (secret, size, small) = decoded-some _ _ es in
          let (low, high, late, bounded) =
            (numbers_ok_iff r.key_version r.server_time_ms).0 numbers in
          (
            ((text_of-some 36 _ _).0 ei).0,
            (is_uuid_text_iff r.device_id).0 uuid,
            ((text_of-some 64 _ _).0 secret).0,
            size,
            small,
            (int_of-some _ _).0 ek,
            (int_of-some _ _).0 et,
            low,
            high,
            late,
            bounded,
          ),
      λ (ei, written, es, size, small, ek, et, low, high, late, bounded).
          let uuid = (is_uuid_text_iff r.device_id).1 written in
          let secret =
            (text_of-some 64 _ (encode_base64 r.secret)).1
              (es, omega (arith, length-encode r.secret, size)) in
          same
          ∙ Chosen-accept _ _ _ _ r (
            (text_of-some 36 _ _).1 (ei, uuid_length _ uuid),
            uuid,
            ap decoded_secret secret ∙ encoded-decoded r.secret size small,
            (int_of-some _ _).1 ek,
            (int_of-some _ _).1 et,
            (numbers_ok_iff r.key_version r.server_time_ms).1 (low, high, late, bounded),
          ),
    )
