-- ===== src/Provision/Base64/Canonical.antt =====
-- `decodeBase64Exact` accepts one text for each sequence of bytes, its encoding.
use presence_platform.Prelude.{
  IsByte, ℕ, ◌+◌, ◌-◌, ◌*◌, ◌/◌, ◌%◌, ◌^◌, ◌<◌, ◌≡◌, refl, ap, ◌∙◌, false, some, [], ◌∷◌, ◌++◌,
  Bytes, ◌==◌, ltb, if◌then◌else◌, All, arith, Option-cases, inl, inr,
}
use presence_platform.Provision.Base64.{
  base64_value, read_group, drain, group_bytes, join, decode_groups,
}

-- The alphabet of RFC 4648.
unfoldable pub base64_char : ℕ → ℕ
base64_char v =
    if ltb v 26
    then b'A' + v
    else if ltb v 52
    then b'a' + (v - 26)
    else if ltb v 62
    then b'0' + (v - 52)
    else if v == 62
    then b'+'
    else b'/'

-- The encoding of RFC 4648, three bytes at a time.
unfoldable pub encode_base64 : Bytes → Bytes
encode_base64 [] = []
encode_base64 (a ∷ []) = base64_char (a / 4) ∷ base64_char (a % 4 * 16) ∷ b'=' ∷ b'=' ∷ []
encode_base64 (a ∷ (b ∷ [])) =
    base64_char (a / 4) ∷ base64_char (a % 4 * 16 + b / 16) ∷ base64_char (b % 16 * 4) ∷ b'=' ∷ []
encode_base64 (a ∷ (b ∷ (c ∷ rest))) =
    base64_char (a / 4)
    ∷ base64_char (a % 4 * 16 + b / 16)
    ∷ base64_char (b % 16 * 4 + c / 64)
    ∷ base64_char (c % 64)
    ∷ encode_base64 rest

pub value-char : (c v : ℕ) → base64_value c ≡ some v → (v < 64) × (base64_char v ≡ c)
unfolding base64_value base64_char
value-char c v h = (ground arith, ground arith)

pub char-value :
    (v : ℕ) → v < 64 → (base64_value (base64_char v) ≡ some v) × ((base64_char v == b'=') ≡ false)
unfolding base64_value base64_char
char-value v h = (ground arith, ground arith)

pub read_some :
    (v : ℕ) (cs : Bytes) (acc bits : ℕ)
    → v < 64
    → read_group (base64_char v ∷ cs) acc bits ≡ read_group cs (acc * 64 + v) (bits + 6)
unfolding read_group
read_some v cs acc bits h = rw ((char-value v h).1, (char-value v h).0) refl

-- A character that is no padding has a value.
pub record Sextet (c : ℕ) (cs : Bytes) (acc bits : ℕ) (r : ℕ × ℕ) : Type 0 where
  pub value : ℕ
  pub small : value < 64
  pub char_eq : base64_char value ≡ c
  pub rest_eq : read_group cs (acc * 64 + value) (bits + 6) ≡ some r

pub read_group-Sextet :
    (c : ℕ) (cs : Bytes) (acc bits : ℕ) (r : ℕ × ℕ)
    → (c == b'=') ≡ false
    → read_group (c ∷ cs) acc bits ≡ some r
    → Sextet c cs acc bits r
unfolding read_group
read_group-Sextet c cs acc bits r h e = elim (Option-cases (base64_value c)) [
  | inl n ↦ absurd (ground arith)
  | inr (v, k) ↦
      let (small, char) = value-char c v k in
      record { value = v; small = small; char_eq = char; rest_eq = ground arith }
]

pub read_four :
    (v1 v2 v3 v4 : ℕ)
    → v1 < 64
    → v2 < 64
    → v3 < 64
    → v4 < 64
    → read_group (base64_char v1 ∷ base64_char v2 ∷ base64_char v3 ∷ base64_char v4 ∷ []) 0 0
      ≡ some (((((0 * 64 + v1) * 64 + v2) * 64 + v3) * 64 + v4, 24))
read_four v1 v2 v3 v4 h1 h2 h3 h4 =
    read_some v1 _ _ _ h1
    ∙ read_some v2 _ _ _ h2
    ∙ read_some v3 _ _ _ h3
    ∙ read_some v4 _ _ _ h4
    ∙ unfold read_group in refl

pub read_three :
    (v1 v2 v3 : ℕ)
    → v1 < 64
    → v2 < 64
    → v3 < 64
    → read_group (base64_char v1 ∷ base64_char v2 ∷ base64_char v3 ∷ b'=' ∷ []) 0 0
      ≡ some ((((0 * 64 + v1) * 64 + v2) * 64 + v3, 18))
read_three v1 v2 v3 h1 h2 h3 =
    read_some v1 _ _ _ h1
    ∙ read_some v2 _ _ _ h2
    ∙ read_some v3 _ _ _ h3
    ∙ unfold read_group in refl

pub read_two :
    (v1 v2 : ℕ)
    → v1 < 64
    → v2 < 64
    → read_group (base64_char v1 ∷ base64_char v2 ∷ b'=' ∷ b'=' ∷ []) 0 0
      ≡ some ((0 * 64 + v1) * 64 + v2, 12)
read_two v1 v2 h1 h2 = read_some v1 _ _ _ h1 ∙ read_some v2 _ _ _ h2 ∙ unfold read_group in refl

pub group_24 :
    (n : ℕ)
    → group_bytes (some (n, 24)) ≡ some (n / 2 ^ 16 % 256 ∷ n / 2 ^ 8 % 256 ∷ n / 2 ^ 0 % 256 ∷ [])
unfolding group_bytes drain
group_24 n = refl

pub group_18 :
    (n : ℕ)
    → n % 4 ≡ 0
    → group_bytes (some (n, 18)) ≡ some (n / 2 ^ 10 % 256 ∷ n / 2 ^ 2 % 256 ∷ [])
unfolding group_bytes drain
group_18 n h = ground arith

pub group_12 : (n : ℕ) → n % 16 ≡ 0 → group_bytes (some (n, 12)) ≡ some (n / 2 ^ 4 % 256 ∷ [])
unfolding group_bytes drain
group_12 n h = ground arith

pub spare_18 : (n : ℕ) {bs : Bytes} → group_bytes (some (n, 18)) ≡ some bs → n % 4 ≡ 0
unfolding group_bytes drain
spare_18 n h = ground arith

pub spare_12 : (n : ℕ) {bs : Bytes} → group_bytes (some (n, 12)) ≡ some bs → n % 16 ≡ 0
unfolding group_bytes drain
spare_12 n h = ground arith

decode_group :
    (a b c d : ℕ) (rest g bs : Bytes)
    → group_bytes (read_group (a ∷ b ∷ c ∷ d ∷ []) 0 0) ≡ some g
    → decode_groups rest ≡ some bs
    → decode_groups (a ∷ b ∷ c ∷ d ∷ rest) ≡ some (g ++ bs)
unfolding decode_groups join
decode_group a b c d rest g bs h k = rw (h, k) refl

pub encode-decode : (bs : Bytes) → All IsByte bs → decode_groups (encode_base64 bs) ≡ some bs
unfolding encode_base64
encode-decode [] h = unfold decode_groups in refl
encode-decode (a ∷ []) (ha, h) =
    let read = read_two (a / 4) (a % 4 * 16) (omega arith) (omega arith) in
    let n = (0 * 64 + a / 4) * 64 + a % 4 * 16 in
    let b1 : n / 2 ^ 4 % 256 ≡ a = omega arith in
    decode_group _ _ _ _ [] (a ∷ []) []
      (ap group_bytes read ∙ group_12 n (omega arith) ∙ rw b1 refl) (unfold decode_groups in refl)
encode-decode (a ∷ (b ∷ [])) (ha, (hb, h)) =
    let read =
      read_three (a / 4) (a % 4 * 16 + b / 16) (b % 16 * 4) (omega arith) (omega arith)
        (omega arith) in
    let n = ((0 * 64 + a / 4) * 64 + (a % 4 * 16 + b / 16)) * 64 + b % 16 * 4 in
    let b1 : n / 2 ^ 10 % 256 ≡ a = omega arith in
    let b2 : n / 2 ^ 2 % 256 ≡ b = omega arith in
    decode_group _ _ _ _ [] (a ∷ b ∷ []) []
      (ap group_bytes read ∙ group_18 n (omega arith) ∙ rw (b1, b2) refl)
      (unfold decode_groups in refl)
encode-decode (a ∷ (b ∷ (c ∷ bs))) (ha, (hb, (hc, h))) =
    let read =
      read_four (a / 4) (a % 4 * 16 + b / 16) (b % 16 * 4 + c / 64) (c % 64) (omega arith)
        (omega arith) (omega arith) (omega arith) in
    let n =
      (((0 * 64 + a / 4) * 64 + (a % 4 * 16 + b / 16)) * 64 + (b % 16 * 4 + c / 64)) * 64
      + c % 64 in
    let b1 : n / 2 ^ 16 % 256 ≡ a = omega arith in
    let b2 : n / 2 ^ 8 % 256 ≡ b = omega arith in
    let b3 : n / 2 ^ 0 % 256 ≡ c = omega arith in
    decode_group _ _ _ _ (encode_base64 bs) (a ∷ b ∷ c ∷ []) bs
      (ap group_bytes read ∙ group_24 n ∙ rw (b1, b2, b3) refl) (encode-decode bs h)
