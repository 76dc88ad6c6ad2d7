-- ===== src/Ota/Version/RoundTrip.antt =====
-- A version has one spelling, and its code orders as the version does.
use presence_platform.Prelude.{
  ℕ, zero, suc, ◌+◌, ◌*◌, ◌/◌, ◌%◌, ◌^◌, ◌≤◌, ◌<◌, ◌≡◌, ◌⊎◌, ◌↔◌, subst, refl, ap, ◌∙◌, sym, [],
  ◌∷◌, ◌++◌, Bytes, length, length-append, Option, some, none, arith, ==_ne, append-nil,
}
use presence_platform.Decimal.{json_int}
use presence_platform.Decimal.Laws.{length-digits}
use presence_platform.Ota.Version.{
  invalid_ota_version, is_digit, starts_with_digit, read_part, expect_dot, expect_end, push_part,
  read_version, code_or_invalid, ota_version_code, parse_ota_version, format_ota_version, ◌>>=◌,
}
use presence_platform.Ota.Version.Digits.{digits-head}
use presence_platform.Ota.Version.Parts.{
  json_int_pos, json_int-zero, read_part-json_int, read_part-canonical,
}

-- MAJOR.MINOR.PATCH
abbrev pub version_text : ℕ → ℕ → ℕ → Bytes
version_text a b c = json_int a ++ b'.' ∷ (json_int b ++ b'.' ∷ json_int c)

abbrev pub pack : ℕ → ℕ → ℕ → ℕ
pack a b c = (a * 2 ^ 16 + b) * 2 ^ 16 + c

push_part-eq : (code v : ℕ) → code < 2 ^ 32 → push_part code v ≡ code * 2 ^ 16 + v
unfolding push_part
push_part-eq code v h = omega arith

length-json_int : (v : ℕ) → v ≤ 65535 → (0 < length (json_int v)) × (length (json_int v) ≤ 5)
length-json_int zero h = rw json_int-zero (omega arith)
length-json_int (suc u) h =
    let (c, t, e, dig, nz) = digits-head 5 (suc u) (omega arith) (omega arith) (omega arith) in
    rw (json_int_pos (suc u) (omega arith) (omega arith))
      (omega (arith, ap length e), length-digits (suc u) 5 (omega arith))

length-version_text :
    (a b c : ℕ)
    → a ≤ 65535
    → b ≤ 65535
    → c ≤ 65535
    → (0 < length (version_text a b c)) × (length (version_text a b c) ≤ 17)
length-version_text a b c ha hb hc = omega (
  arith,
  length-append (json_int a) (b'.' ∷ (json_int b ++ b'.' ∷ json_int c)),
  length-append (json_int b) (b'.' ∷ json_int c),
  length-json_int a ha,
  length-json_int b hb,
  length-json_int c hc,
)

read_version-text :
    (a b c : ℕ)
    → a ≤ 65535
    → b ≤ 65535
    → c ≤ 65535
    → read_version (version_text a b c) ≡ some (pack a b c)
unfolding read_version expect_dot expect_end
read_version-text a b c ha hb hc =
    rw
      (
        read_part-json_int a (b'.' ∷ (json_int b ++ b'.' ∷ json_int c)) ha
            (unfold starts_with_digit is_digit in refl),
        read_part-json_int b (b'.' ∷ json_int c) hb (unfold starts_with_digit is_digit in refl),
        rw append-nil at (read_part-json_int c [] hc (unfold starts_with_digit in refl)),
      )
      (ap some (
        push_part-eq _ c (omega (arith, push_part-eq 0 a, push_part-eq (push_part 0 a) b))
        ∙ omega (arith, push_part-eq 0 a, push_part-eq (push_part 0 a) b)))

-- Every MAJOR.MINOR.PATCH of 16-bit parts parses, to its parts side by side.
pub parse-version_text :
    (a b c : ℕ)
    → a ≤ 65535
    → b ≤ 65535
    → c ≤ 65535
    → parse_ota_version (version_text a b c) ≡ some (pack a b c)
unfolding parse_ota_version ota_version_code code_or_invalid
parse-version_text a b c ha hb hc =
    ground (arith, read_version-text a b c ha hb hc, length-version_text a b c ha hb hc)

bind-eq-some {ℓ κ} :
    {A : Type ℓ} {B : Type κ} (m : Option A) (f : A → Option B) {b : B}
    → (m >>= f) ≡ some b
    → (a : A) × (m ≡ some a) × (f a ≡ some b)
bind-eq-some none f h = cc
bind-eq-some (some a) f h = (a, refl, h)

expect_dot_inv : (s : Bytes) {t : Bytes} → expect_dot s ≡ some t → s ≡ b'.' ∷ t
unfolding expect_dot
expect_dot_inv [] e = cc
expect_dot_inv (c ∷ cs) e = ground arith

expect_end_inv : (s : Bytes) (n : ℕ) {m : ℕ} → expect_end s n ≡ some m → (s ≡ []) × (n ≡ m)
unfolding expect_end
expect_end_inv [] n e = ground arith
expect_end_inv (c ∷ cs) n e = cc

-- The parts of a text that is read as a version.
pub record Spelled (s : Bytes) (code : ℕ) : Type 0 where
  pub major : ℕ
  pub minor : ℕ
  pub patch : ℕ
  pub major_small : major ≤ 65535
  pub minor_small : minor ≤ 65535
  pub patch_small : patch ≤ 65535
  pub text_eq : s ≡ version_text major minor patch
  pub code_eq : code ≡ pack major minor patch

-- The six reads of a version, in order.
spelled :
    (s : Bytes) {s1 s2 s3 s4 s5 : Bytes} {a b c code : ℕ}
    → read_part s ≡ some (a, s1)
    → expect_dot s1 ≡ some s2
    → read_part s2 ≡ some (b, s3)
    → expect_dot s3 ≡ some s4
    → read_part s4 ≡ some (c, s5)
    → expect_end s5 (push_part (push_part (push_part 0 a) b) c) ≡ some code
    → Spelled s code
spelled s {s1} {s2} {s3} {s4} {s5} {a} {b} {c} p1 d1 p2 d2 p3 last =
    let (t1, h1) = read_part-canonical s p1 in
    let (t2, h2) = read_part-canonical s2 p2 in
    let (t3, h3) = read_part-canonical s4 p3 in
    let (t4, h4) = expect_end_inv s5 _ last in
    let e1 = expect_dot_inv s1 d1 in
    let e2 = expect_dot_inv s3 d2 in
    record {
      major = a;
      minor = b;
      patch = c;
      major_small = h1;
      minor_small = h2;
      patch_small = h3;
      text_eq = cc (t1, t2, t3, t4, e1, e2, append-nil (json_int c));
      code_eq =
          sym h4
          ∙ push_part-eq _ c (omega (arith, push_part-eq 0 a, push_part-eq (push_part 0 a) b))
          ∙ omega (arith, push_part-eq 0 a, push_part-eq (push_part 0 a) b);
    }

read_version-Spelled : (s : Bytes) {code : ℕ} → read_version s ≡ some code → Spelled s code
unfolding read_version
read_version-Spelled s e0 =
    let ((a, s1), p1, e1) = bind-eq-some (read_part s) _ e0 in
    let (s2, p2, e2) = bind-eq-some (expect_dot s1) _ e1 in
    let ((b, s3), p3, e3) = bind-eq-some (read_part s2) _ e2 in
    let (s4, p4, e4) = bind-eq-some (expect_dot s3) _ e3 in
    let ((c, s5), p5, e5) = bind-eq-some (read_part s4) _ e4 in spelled s p1 p2 p3 p4 p5 e5

parse_inv : (s : Bytes) {code : ℕ} → parse_ota_version s ≡ some code → read_version s ≡ some code
unfolding parse_ota_version ota_version_code code_or_invalid
parse_inv s e = ground arith

-- Nothing else parses: a text that does is three decimal parts without leading zeros.
pub parse-Spelled : (s : Bytes) {code : ℕ} → parse_ota_version s ≡ some code → Spelled s code
parse-Spelled s e = read_version-Spelled s (parse_inv s e)

format-pack :
    (a b c : ℕ)
    → a ≤ 65535
    → b ≤ 65535
    → c ≤ 65535
    → format_ota_version (pack a b c) ≡ version_text a b c
unfolding format_ota_version
format-pack a b c ha hb hc =
    let first : pack a b c / 2 ^ 32 % 2 ^ 16 ≡ a = omega arith in
    let second : pack a b c / 2 ^ 16 % 2 ^ 16 ≡ b = omega arith in
    let third : pack a b c % 2 ^ 16 ≡ c = omega arith in
    rw (==_ne (pack a b c) invalid_ota_version (omega arith), first, second, third)

-- One version has one spelling: a text that parses is what `formatOtaVersion` writes for its
-- code.
pub format-parse :
    (s : Bytes) {code : ℕ} → parse_ota_version s ≡ some code → format_ota_version code ≡ s
format-parse s e =
    let z = parse-Spelled s e in
    rw (z.code_eq, z.text_eq)
      (format-pack z.major z.minor z.patch z.major_small z.minor_small z.patch_small)

-- Every code below 2^48 is read back from its spelling.
pub parse-format :
    (code : ℕ) → code < 2 ^ 48 → parse_ota_version (format_ota_version code) ≡ some code
parse-format code h =
    let a = code / 2 ^ 32 in
    let b = code / 2 ^ 16 % 2 ^ 16 in
    let c = code % 2 ^ 16 in
    let split : pack a b c ≡ code = omega arith in
    subst (λ n. parse_ota_version (format_ota_version n) ≡ some n) split
      (rw (format-pack a b c (omega arith) (omega arith) (omega arith))
        (parse-version_text a b c (omega arith) (omega arith) (omega arith)))

-- For texts of three parts up to 65535 each that parse, the codes order as the versions do: by
-- the major part, then the minor, then the patch.
pub code_order :
    (a b c d e f x y : ℕ)
    → a ≤ 65535
    → b ≤ 65535
    → c ≤ 65535
    → d ≤ 65535
    → e ≤ 65535
    → f ≤ 65535
    → parse_ota_version (version_text a b c) ≡ some x
    → parse_ota_version (version_text d e f) ≡ some y
    → (x < y) ↔ ((a < d) ⊎ ((a ≡ d) × ((b < e) ⊎ ((b ≡ e) × (c < f)))))
code_order a b c d e f x y ha hb hc hd he hf p q =
    let px : pack a b c ≡ x = cc (parse-version_text a b c ha hb hc) in
    let py : pack d e f ≡ y = cc (parse-version_text d e f hd he hf) in
    (λ h. ground arith, λ h. ground arith)
