-- ===== src/Hex/Decoding.antt =====
-- What `decodeHexExact` accepts.
use presence_platform.Prelude.{
  IsByte, ℕ, ◌+◌, ◌*◌, ◌/◌, ◌%◌, ◌<◌, ◌≡◌, ◌↔◌, refl, ap, subst, ◌∙◌, true, ◌&&◌, Option, none,
  some, [], ◌∷◌, Bytes, length, ◌==◌, leb, if◌then◌else◌, to_size, All, arith, size_mod,
}
use presence_platform.Hex.{hex_digit, to_hex, nibble, put_byte, decode_pairs, decode_hex_exact}

-- A hex digit in lower case.
unfoldable pub lower_hex : ℕ → ℕ
lower_hex c = if leb b'A' c && leb c b'F' then c + 32 else c

unfoldable pub lower : Bytes → Bytes
lower [] = []
lower (c ∷ cs) = lower_hex c ∷ lower cs

nibble-lower : (c v : ℕ) → nibble c ≡ some v → (v < 16) × (lower_hex c ≡ hex_digit v)
unfolding nibble lower_hex hex_digit
nibble-lower c v h = (ground arith, ground arith)

lower-nibble : (c v : ℕ) → v < 16 → lower_hex c ≡ hex_digit v → nibble c ≡ some v
unfolding nibble lower_hex hex_digit
lower-nibble c v h e = ground arith

-- What `put_byte` put together.
record Put (o p : Option ℕ) (r : Option Bytes) (s : Bytes) : Type 0 where
  hi : ℕ
  lo : ℕ
  rest : Bytes
  hi_eq : o ≡ some hi
  lo_eq : p ≡ some lo
  rest_eq : r ≡ some rest
  text_eq : (hi * 16 + lo) ∷ rest ≡ s

put_byte-Put :
    (o p : Option ℕ) (r : Option Bytes) {s : Bytes} → put_byte o p r ≡ some s → Put o p r s
unfolding put_byte
put_byte-Put (some hi) (some lo) (some rest) h = record {
  hi = hi;
  lo = lo;
  rest = rest;
  hi_eq = refl;
  lo_eq = refl;
  rest_eq = refl;
  text_eq = ground arith;
}
put_byte-Put none p r h = absurd (ground arith)
put_byte-Put (some hi) none r h = absurd (ground arith)
put_byte-Put (some hi) (some lo) none h = absurd (ground arith)

-- A text of hex digits of some bytes.
abbrev Spells : Bytes → Bytes → Type 0
Spells s bs = All IsByte bs × (lower s ≡ to_hex bs)

pairs-Spells : (s bs : Bytes) → decode_pairs s ≡ some bs → Spells s bs
unfolding decode_pairs lower to_hex
pairs-Spells [] [] h = (tt, refl)
pairs-Spells [] (b ∷ bs) h = absurd (ground arith)
pairs-Spells (c ∷ []) bs h = absurd (ground arith)
pairs-Spells (h ∷ (l ∷ s)) bs e =
    let z = put_byte-Put (nibble h) (nibble l) (decode_pairs s) e in
    let (hi_small, hi_digit) = nibble-lower h z.hi z.hi_eq in
    let (lo_small, lo_digit) = nibble-lower l z.lo z.lo_eq in
    let (small, spelt) = pairs-Spells s z.rest z.rest_eq in
    let byte = z.hi * 16 + z.lo in
    let first : lower_hex h ≡ hex_digit (byte / 16) = hi_digit ∙ ap hex_digit (omega arith) in
    let second : lower_hex l ≡ hex_digit (byte % 16) = lo_digit ∙ ap hex_digit (omega arith) in
    subst (Spells (h ∷ l ∷ s)) z.text_eq ((omega arith, small), cc (first, second, spelt))

Spells-pairs : (s bs : Bytes) → Spells s bs → decode_pairs s ≡ some bs
unfolding decode_pairs lower to_hex
Spells-pairs [] [] z = refl
Spells-pairs [] (b ∷ bs) z = absurd (ground arith)
Spells-pairs (c ∷ []) [] z = absurd (ground arith)
Spells-pairs (c ∷ []) (b ∷ bs) z = absurd (ground arith)
Spells-pairs (h ∷ (l ∷ s)) [] z = absurd (ground arith)
Spells-pairs (h ∷ (l ∷ s)) (b ∷ bs) ((small, rest_small), e) =
    let first : lower_hex h ≡ hex_digit (b / 16) = ground arith in
    let second : lower_hex l ≡ hex_digit (b % 16) = ground arith in
    let others : lower s ≡ to_hex bs = ground arith in
    let whole : b / 16 * 16 + b % 16 ≡ b = omega arith in
    rw
      (
        lower-nibble h (b / 16) (omega arith) first,
        lower-nibble l (b % 16) (omega arith) second,
        Spells-pairs s bs (rest_small, others),
      )
      (unfold put_byte in ap (λ x. some (x ∷ bs)) whole)

pub length-Spells : (s bs : Bytes) → lower s ≡ to_hex bs → length s ≡ length bs * 2
unfolding lower to_hex
length-Spells [] [] h = refl
length-Spells [] (b ∷ bs) h = absurd (ground arith)
length-Spells (c ∷ []) [] h = absurd (ground arith)
length-Spells (c ∷ []) (b ∷ bs) h = absurd (ground arith)
length-Spells (h ∷ (l ∷ s)) [] e = absurd (ground arith)
length-Spells (h ∷ (l ∷ s)) (b ∷ bs) e =
    let others : lower s ≡ to_hex bs = ground arith in omega (arith, length-Spells s bs others)

-- For a length whose double fits `size_t`, `decodeHexExact` returns the bytes `bs` from a text
-- exactly if `bs` has that length and the text, in lower case, is what `toHex` writes for `bs`.
pub decode_hex_iff :
    (s bs : Bytes) (n : ℕ)
    → n * 2 < size_mod
    → (decode_hex_exact s n ≡ some bs) ↔ ((length bs ≡ n) × (All IsByte bs × (lower s ≡ to_hex bs)))
unfolding decode_hex_exact
decode_hex_iff s bs n small = (decodes, encodes)
  where
    decodes :
        decode_hex_exact s n ≡ some bs → (length bs ≡ n) × (All IsByte bs × (lower s ≡ to_hex bs))
    decodes h =
        let exact : length s ≡ n * 2 = ground arith in
        let pairs : decode_pairs s ≡ some bs = ground arith in
        let z = pairs-Spells s bs pairs in (omega (arith, length-Spells s bs z.1), z)

    encodes :
        (length bs ≡ n) × (All IsByte bs × (lower s ≡ to_hex bs)) → decode_hex_exact s n ≡ some bs
    encodes (e, z) =
        let exact : (length s == to_size (n * 2)) ≡ true = ground (arith, length-Spells s bs z.1) in
        rw exact (Spells-pairs s bs z)
