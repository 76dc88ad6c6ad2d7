-- ===== src/Ota/Manifest/Offers.antt =====
-- Which printed manifests `parseOtaManifest` accepts.
use presence_platform.Prelude.{
  IsByte, ℕ, ◌*◌, ◌^◌, ◌≤◌, ◌<◌, ◌≡◌, ◌↔◌, refl, ap, sym, ◌∙◌, subst, true, Option, none, some,
  Bytes, codes, length, All, Option-cases, inl, inr, arith,
}
use presence_platform.Json.Printing.{
  Value, number, flag, text, Fields, print_object, lookup, plain_fields, is_key, all_plain,
  is_plain,
}
use presence_platform.Json.Reading.{int_of, text_of, in_range, readers_agree, string_agrees}
use presence_platform.Json.Values.{int_of-some, text_of-some, bool_of-some}
use presence_platform.Hex.{to_hex, decode_hex_exact}
use presence_platform.Hex.Decoding.{lower, decode_hex_iff, length-Spells}
use presence_platform.Ota.Version.{parse_ota_version}
use presence_platform.Ota.Manifest.{
  OtaManifest, url_ok, usable_version, usable_url, positive_size, decoded_bytes, offered,
  parse_offer, parse_ota_manifest,
}

usable_version-some :
    (o : Option Bytes) (v : Bytes)
    → (usable_version o ≡ some v)
      ↔ ((o ≡ some v) × ((code : ℕ) × (parse_ota_version v ≡ some code)))
unfolding usable_version
usable_version-some none v = (λ h. absurd (ground arith), λ (e, z). absurd (ground arith))
usable_version-some (some u) v = elim (Option-cases (parse_ota_version u)) [
  | inl e ↦ (λ h. absurd (ground arith), λ (same, (code, k)). absurd (ground arith))
  | inr (code, e) ↦ (
    λ h.
        let same : u ≡ v = ground arith in
        (ap some same, (code, ap parse_ota_version (sym same) ∙ e)),
    λ (same, z). rw (usable_version, e) same,
  )
]

usable_url-some :
    (o : Option Bytes) (u : Bytes) → (usable_url o ≡ some u) ↔ ((o ≡ some u) × (url_ok u ≡ true))
unfolding usable_url
usable_url-some none u = (λ h. absurd (ground arith), λ (e, z). absurd (ground arith))
usable_url-some (some x) u = (λ h. (ground arith, ground arith), λ (e, z). ground arith)

positive_size-some :
    (o : Option ℕ) (n : ℕ) → (positive_size o ≡ some n) ↔ ((o ≡ some n) × (0 < n) × (n < 2 ^ 63))
unfolding positive_size
positive_size-some none n = (λ h. absurd (ground arith), λ (e, z, k). absurd (ground arith))
positive_size-some (some m) n =
    (λ h. (ground arith, ground arith, ground arith), λ (e, z, k). ground arith)

-- A digest or a signature of `n` bytes, as its hexadecimal digits in either case.
abbrev Spelled : Option Value → ℕ → Bytes → Type 0
Spelled o n bs =
    (digits : Bytes) × (o ≡ some (text digits))
    × (lower digits ≡ to_hex bs)
    × (length bs ≡ n)
    × All IsByte bs

decoded-Spelled :
    (o : Option Value) (n : ℕ) (bs : Bytes)
    → n ≤ 64
    → (decoded_bytes (text_of (n * 2) o) n ≡ some bs) ↔ Spelled o n bs
unfolding decoded_bytes
decoded-Spelled o n bs h = (decodes, encodes)
  where
    decodes : decoded_bytes (text_of (n * 2) o) n ≡ some bs → Spelled o n bs
    decodes e = elim (Option-cases (text_of (n * 2) o)) [
      | inl k ↦ absurd (ground arith)
      | inr (digits, k) ↦
          let decoded : decode_hex_exact digits n ≡ some bs =
            sym (ap (λ x. decoded_bytes x n) k) ∙ e in
          let (size, (small, same)) = (decode_hex_iff digits bs n (omega arith)).0 decoded in
          (digits, ((text_of-some (n * 2) o digits).0 k).0, same, size, small)
    ]

    encodes : Spelled o n bs → decoded_bytes (text_of (n * 2) o) n ≡ some bs
    encodes (digits, place, same, size, small) =
        let whole =
          (text_of-some (n * 2) o digits).1
            (place, omega (arith, length-Spells digits bs same, size)) in
        rw whole ((decode_hex_iff digits bs n (omega arith)).1 (size, (small, same)))

-- The fields of an offer.
abbrev Chosen :
    Option Bytes → Option Bytes → Option ℕ → Option Bytes → Option Bytes → OtaManifest → Type 0
Chosen v u n sha sig m =
    (v ≡ some m.version)
    × (u ≡ some m.url)
    × (n ≡ some m.size)
    × (sha ≡ some m.sha256)
    × (sig ≡ some m.signature)
    × (m.available ≡ true)

offered-Chosen :
    (v u : Option Bytes) (n : Option ℕ) (sha sig : Option Bytes) (m : OtaManifest)
    → offered v u n sha sig ≡ some m
    → Chosen v u n sha sig m
unfolding offered
offered-Chosen none u n sha sig m h = absurd (ground arith)
offered-Chosen (some v) none n sha sig m h = absurd (ground arith)
offered-Chosen (some v) (some u) none sha sig m h = absurd (ground arith)
offered-Chosen (some v) (some u) (some n) none sig m h = absurd (ground arith)
offered-Chosen (some v) (some u) (some n) (some sha) none m h = absurd (ground arith)
offered-Chosen (some v) (some u) (some n) (some sha) (some sig) m h =
    let same : record {
      available = true;
      version = v;
      url = u;
      size = n;
      sha256 = sha;
      signature = sig;
    }
        ≡ m =
      ground arith in
    subst (Chosen (some v) (some u) (some n) (some sha) (some sig)) same
      (refl, refl, refl, refl, refl, refl)

Chosen-offered :
    (v u : Option Bytes) (n : Option ℕ) (sha sig : Option Bytes) (m : OtaManifest)
    → Chosen v u n sha sig m
    → offered v u n sha sig ≡ some m
unfolding offered
Chosen-offered v u n sha sig m (ev, eu, en, es, eg, ea) = rw (ev, eu, en, es, eg, sym ea) refl

-- The readers on a printed manifest.
offer_printed :
    (fs : Fields)
    → plain_fields fs ≡ true
    → in_range (lookup (codes "size") fs) ≡ true
    → parse_offer (print_object fs)
      ≡ offered
          (usable_version (text_of 32 (lookup (codes "version") fs)))
          (usable_url (text_of 512 (lookup (codes "url") fs)))
          (positive_size (int_of (lookup (codes "size") fs)))
          (decoded_bytes (text_of 64 (lookup (codes "sha256") fs)) 32)
          (decoded_bytes (text_of 128 (lookup (codes "signature") fs)) 64)
unfolding parse_offer is_key all_plain is_plain
offer_printed fs plain h =
    let version = string_agrees (codes "version") fs 32 refl plain in
    let url = string_agrees (codes "url") fs 512 refl plain in
    let (size, _, _) = readers_agree (codes "size") fs 0 refl plain h in
    let sha = string_agrees (codes "sha256") fs 64 refl plain in
    let signature = string_agrees (codes "signature") fs 128 refl plain in
    rw (version, url, size, sha, signature) refl

available_offer :
    (fs : Fields)
    → plain_fields fs ≡ true
    → lookup (codes "available") fs ≡ some (flag true)
    → parse_ota_manifest (print_object fs) ≡ parse_offer (print_object fs)
unfolding parse_ota_manifest is_key all_plain is_plain
available_offer fs plain e =
    let range : in_range (lookup (codes "available") fs) ≡ true = rw e (unfold in_range in refl) in
    let (_, found, _) = readers_agree (codes "available") fs 0 refl plain range in
    rw (parse_ota_manifest, found ∙ (bool_of-some _ true).1 e) refl

-- For a manifest that is a flat JSON object without escapes, that says it is available and
-- whose size is a 64-bit pattern if it is a number, `parseOtaManifest` returns an update
-- exactly if every field says so: a version that parses, of at most 32 bytes, a usable URL of
-- at most 512, a positive size, and a digest of 32 and a signature of 64 bytes in hex digits of
-- either case.
pub parse_offer_iff :
    (fs : Fields) (m : OtaManifest)
    → plain_fields fs ≡ true
    → in_range (lookup (codes "size") fs) ≡ true
    → lookup (codes "available") fs ≡ some (flag true)
    → parse_ota_manifest (print_object fs) ≡ some m
      ↔ (lookup (codes "version") fs ≡ some (text m.version))
        × (length m.version ≤ 32)
        × ((code : ℕ) × (parse_ota_version m.version ≡ some code))
        × (lookup (codes "url") fs ≡ some (text m.url))
        × (length m.url ≤ 512)
        × (url_ok m.url ≡ true)
        × (lookup (codes "size") fs ≡ some (number m.size))
        × (0 < m.size)
        × (m.size < 2 ^ 63)
        × Spelled (lookup (codes "sha256") fs) 32 m.sha256
        × Spelled (lookup (codes "signature") fs) 64 m.signature
        × (m.available ≡ true)
parse_offer_iff fs m plain range offer =
    let same = available_offer fs plain offer ∙ offer_printed fs plain range in
    (
      λ h.
          let (ev, eu, en, es, eg, ea) = offered-Chosen _ _ _ _ _ m (sym same ∙ h) in
          let (v, code) = (usable_version-some _ _).0 ev in
          let (version, version_size) = (text_of-some 32 _ _).0 v in
          let (u, url_good) = (usable_url-some _ _).0 eu in
          let (url, url_size) = (text_of-some 512 _ _).0 u in
          let (n, positive, bounded) = (positive_size-some _ _).0 en in
          (
            version,
            version_size,
            code,
            url,
            url_size,
            url_good,
            (int_of-some _ _).0 n,
            positive,
            bounded,
            (decoded-Spelled _ 32 _ (omega arith)).0 es,
            (decoded-Spelled _ 64 _ (omega arith)).0 eg,
            ea,
          ),
      λ (
        version, version_size, code, url, url_size, url_good, n, positive, bounded, sha, signature,
        ea,
      ).
          same
          ∙ Chosen-offered _ _ _ _ _ m (
            (usable_version-some _ _).1 ((text_of-some 32 _ _).1 (version, version_size), code),
            (usable_url-some _ _).1 ((text_of-some 512 _ _).1 (url, url_size), url_good),
            (positive_size-some _ _).1 ((int_of-some _ _).1 n, positive, bounded),
            (decoded-Spelled _ 32 _ (omega arith)).1 sha,
            (decoded-Spelled _ 64 _ (omega arith)).1 signature,
            ea,
          ),
    )
