-- ===== src/Provision/Base64/Exact.antt =====
-- `decodeBase64Exact` on every text, against the encoding of RFC 4648.
use presence_platform.Prelude.{
  IsByte, ℕ, suc, ◌+◌, ◌-◌, ◌*◌, ◌/◌, ◌%◌, ◌≤◌, ◌<◌, ◌≡◌, ◌↔◌, refl, ap, ◌∙◌, true, Option, none,
  some, [], ◌∷◌, Bytes, length, All, arith,
}
use presence_platform.Provision.Base64.{
  pads_ok, decode_groups, pad_chars, exactly, decode_base64_exact,
}
use presence_platform.Provision.Base64.Canonical.{
  base64_char, encode_base64, char-value, encode-decode,
}
use presence_platform.Provision.Base64.Unique.{groups-Encoded, length-encode}

pad_chars_le : (n : ℕ) → (pad_chars n ≤ 2) × (pad_chars n + n ≡ (n + 2) / 3 * 3)
unfolding pad_chars
pad_chars_le n = (ground arith, ground arith)

-- Characters of the alphabet stand before the padding.
pads_full :
    (left v1 v2 v3 v4 : ℕ) (rest : Bytes)
    → v1 < 64
    → v2 < 64
    → v3 < 64
    → v4 < 64
    → pads_ok left rest ≡ true
    → pads_ok
        (suc (suc (suc (suc left))))
        (base64_char v1 ∷ base64_char v2 ∷ base64_char v3 ∷ base64_char v4 ∷ rest)
      ≡ true
unfolding pads_ok
pads_full left v1 v2 v3 v4 rest h1 h2 h3 h4 e =
    rw ((char-value v1 h1).1, (char-value v2 h2).1, (char-value v3 h3).1, (char-value v4 h4).1, e)
      refl

pads_encode :
    (left : ℕ) (bs : Bytes)
    → All IsByte bs
    → left + pad_chars (length bs) ≡ length (encode_base64 bs)
    → pads_ok left (encode_base64 bs) ≡ true
unfolding encode_base64
pads_encode left [] h e = unfold pads_ok in refl
pads_encode left (a ∷ []) (ha, h) e =
    let two : left ≡ 2 = unfold pad_chars in omega arith in
    rw two (
      unfold pads_ok in
      rw ((char-value (a / 4) (omega arith)).1, (char-value (a % 4 * 16) (omega arith)).1) refl)
pads_encode left (a ∷ (b ∷ [])) (ha, (hb, h)) e =
    let three : left ≡ 3 = unfold pad_chars in omega arith in
    rw three (
      unfold pads_ok in
      rw
        (
          (char-value (a / 4) (omega arith)).1,
          (char-value (a % 4 * 16 + b / 16) (omega arith)).1,
          (char-value (b % 16 * 4) (omega arith)).1,
        )
        refl)
pads_encode left (a ∷ (b ∷ (c ∷ bs))) (ha, (hb, (hc, h))) e =
    let same : pad_chars (suc (suc (suc (length bs)))) ≡ pad_chars (length bs) =
      unfold pad_chars in ground arith in
    let size = pad_chars_le (length bs) in
    let four : left ≡ suc (suc (suc (suc (left - 4)))) = omega (arith, length-encode bs) in
    let more = pads_encode (left - 4) bs h (omega (arith, length-encode bs)) in
    rw four (
      pads_full (left - 4) (a / 4) (a % 4 * 16 + b / 16) (b % 16 * 4 + c / 64) (c % 64)
        (encode_base64 bs) (omega arith) (omega arith) (omega arith) (omega arith) more)

abbrev Exact : Bytes → ℕ → Bytes → Type 0
Exact text n bs = (0 < n) × ((length bs ≡ n) × (All IsByte bs × (text ≡ encode_base64 bs)))

record Passed (text : Bytes) (n : ℕ) (bs : Bytes) : Type 0 where
  positive : 0 < n
  length_eq : length text ≡ (n + 2) / 3 * 4
  pads : pads_ok ((n + 2) / 3 * 4 - pad_chars n) text ≡ true
  groups : decode_groups text ≡ some bs
  size : length bs ≡ n

exactly-some :
    (n : ℕ) (o : Option Bytes) (bs : Bytes)
    → exactly n o ≡ some bs
    → (o ≡ some bs) × (length bs ≡ n)
unfolding exactly
exactly-some n none bs h = absurd (ground arith)
exactly-some n (some xs) bs h = (ground arith, ground arith)

decode-Passed :
    (text : Bytes) (n : ℕ) (bs : Bytes) → decode_base64_exact text n ≡ some bs → Passed text n bs
unfolding decode_base64_exact
decode-Passed text n bs h =
    let e : exactly n (decode_groups text) ≡ some bs = ground arith in
    let (groups, size) = exactly-some n _ bs e in
    record {
      positive = ground arith;
      length_eq = ground arith;
      pads = ground arith;
      groups = groups;
      size = size;
    }

Passed-decode :
    (text : Bytes) (n : ℕ) (bs : Bytes) → Passed text n bs → decode_base64_exact text n ≡ some bs
unfolding decode_base64_exact exactly
Passed-decode text n bs p = ground (arith, p.positive, p.length_eq, p.pads, p.groups, p.size)

-- `decodeBase64Exact` returns the bytes `bs` from a text exactly if `n` is positive, `bs` has
-- `n` bytes and the text is the RFC 4648 encoding of `bs`: every secret has one accepted text.
pub decode_base64_iff :
    (text : Bytes) (n : ℕ) (bs : Bytes)
    → decode_base64_exact text n ≡ some bs
      ↔ (0 < n) × ((length bs ≡ n) × (All IsByte bs × (text ≡ encode_base64 bs)))
decode_base64_iff text n bs = (
  λ h.
      let p = decode-Passed text n bs h in
      let (pad, whole) = pad_chars_le n in
      let (same, small) =
        groups-Encoded _ (pad_chars n) text bs pad (omega (arith, p.length_eq))
          (omega (arith, p.length_eq)) p.pads p.groups in
      (p.positive, (p.size, (small, same))),
  λ (pos, (size, (small, same))).
      let len : length text ≡ (n + 2) / 3 * 4 =
        rw same (length-encode bs ∙ ap (λ m. (m + 2) / 3 * 4) size) in
      Passed-decode text n bs (record {
        positive = pos;
        length_eq = len;
        pads = rw same (
            pads_encode _ bs small
              (rw size (omega (arith, length-encode bs, pad_chars_le n, size))));
        groups = rw same (encode-decode bs small);
        size = size;
      }),
)
