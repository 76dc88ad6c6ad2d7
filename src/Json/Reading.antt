-- ===== src/Json/Reading.antt =====
-- What is read from a printed object is what was printed.
use native.Mathlib.Decide.{dec_lt}
use native.Mathlib.Nat.{pow-suc, pow-le-pow_right}
use presence_platform.Prelude.{
  ℕ, zero, suc, ◌+◌, ◌-◌, ◌*◌, ◌/◌, ◌%◌, ◌^◌, ◌≤◌, ◌<◌, ◌≡◌, inl, inr, refl, sym, ap, ◌∙◌, subst,
  Bool, true, false, Option, none, some, [], ◌∷◌, ◌++◌, append_assoc, Bytes, bytes_eq, length,
  lacks, ==_ne, ltb, leb, if◌then◌else◌, Bool-cases, Option-cases, eq_or_ne, arith, u64_mod,
}
use presence_platform.Decimal.{json_int, digits}
use presence_platform.Decimal.Laws.{digits_one, digits_snoc, lacks-json_int}
use presence_platform.Json.{
  quoted, not_at_end, json_value_start, json_digit, read_value, read_unsigned, negated, read_signed,
  signed_value, parse_json_int, after_prefix, has_prefix, bool_value, parse_json_bool, push_char,
  read_string, string_value, parse_json_string,
}
use presence_platform.Json.Printing.{
  Value, number, flag, text, Fields, print_value, print_object, lookup, is_plain, all_plain,
  plain_value, plain_fields, is_key,
}
use presence_platform.Json.Finding.{Closes, object-Found}

read_value_step :
    (d a r : ℕ) (cs : Bytes)
    → d < 10
    → a * 10 + d ≡ r
    → r < u64_mod
    → read_value a ((b'0' + d) ∷ cs) ≡ read_value r cs
unfolding read_value json_digit
read_value_step d a r cs h e k = ground arith

pow_small : (k : ℕ) → k ≤ 18 → 10 ^ k ≤ 10 ^ 18
pow_small k h = pow-le-pow_right {n = 10} (omega arith) h

-- The digits of a number, read in front of any text.
read_value-digits :
    (k v : ℕ) (cs : Bytes)
    → k ≤ 19
    → 0 < v
    → v < 10 ^ k
    → read_value 0 (digits v ++ cs) ≡ read_value v cs
read_value-digits zero v cs hk hv hb = absurd (omega arith)
read_value-digits (suc k) v cs hk hv hb = elim (dec_lt v 10) [
  | yes p ↦ rw (digits_one v hv p) (read_value_step v 0 v cs p (omega arith) (omega arith))
  | no p ↦
      let split : v / 10 * 10 + v % 10 ≡ v = omega arith in
      let tenth : v / 10 < 10 ^ k = omega (arith, pow-suc 10 k) in
      let small : 10 ^ k ≤ 10 ^ 18 = pow_small k (omega arith) in
      let last = (b'0' + v % 10) ∷ cs in
      subst (λ w. read_value 0 (digits w ++ cs) ≡ read_value w cs) split
        (rw
          (
            digits_snoc (v / 10) (v % 10) (omega arith) (omega arith) (omega arith),
            append_assoc (digits (v / 10)) ((b'0' + v % 10) ∷ []) cs,
          )
          (read_value-digits k (v / 10) last (omega arith) (omega arith) tenth
            ∙ read_value_step (v % 10) (v / 10) _ cs (omega arith) refl (omega arith)))
]

read_value_stop : (v c : ℕ) (ys : Bytes) → Closes c → read_value v (c ∷ ys) ≡ v
unfolding read_value json_digit
read_value_stop v c ys (inl e) = ground arith
read_value_stop v c ys (inr e) = ground arith

-- The first of the digits.
digits_first :
    (k v : ℕ)
    → k ≤ 19
    → 0 < v
    → v < 10 ^ k
    → (d : ℕ) × ((ds : Bytes) × ((digits v ≡ d ∷ ds) × (json_digit d ≡ true)))
unfolding json_digit
digits_first zero v hk hv hb = absurd (omega arith)
digits_first (suc k) v hk hv hb = elim (dec_lt v 10) [
  | yes p ↦ (b'0' + v, ([], (digits_one v hv p, ground arith)))
  | no p ↦
      let split : v / 10 * 10 + v % 10 ≡ v = omega arith in
      let tenth : v / 10 < 10 ^ k = omega (arith, pow-suc 10 k) in
      let small : 10 ^ k ≤ 10 ^ 18 = pow_small k (omega arith) in
      let (d, (ds, (e, digit))) = digits_first k (v / 10) (omega arith) (omega arith) tenth in
      let grown = digits_snoc (v / 10) (v % 10) (omega arith) (omega arith) (omega arith) in
      (
        d,
        (
          ds ++ (b'0' + v % 10) ∷ [],
          (ap digits (sym split) ∙ grown ∙ ap (λ x. x ++ (b'0' + v % 10) ∷ []) e, digit),
        ),
      )
]

read_unsigned-digits :
    (v c : ℕ) (ys : Bytes)
    → 0 < v
    → v < 10 ^ 19
    → Closes c
    → read_unsigned (digits v ++ c ∷ ys) ≡ some v
unfolding read_unsigned
read_unsigned-digits v c ys hv hb e =
    let (d, (ds, (shape, digit))) = digits_first 19 v (omega arith) hv hb in
    let value = read_value-digits 19 v (c ∷ ys) (omega arith) hv hb ∙ read_value_stop v c ys e in
    ap (λ x. read_unsigned (x ++ c ∷ ys)) shape
    ∙ rw digit (ap some (ap (λ x. read_value 0 (x ++ c ∷ ys)) (sym shape) ∙ value))

-- A digit is no sign.
read_signed-digits :
    (v c : ℕ) (ys : Bytes)
    → 0 < v
    → v < 10 ^ 19
    → Closes c
    → read_signed (digits v ++ c ∷ ys) ≡ some v
unfolding read_signed json_digit
read_signed-digits v c ys hv hb e =
    let (d, (ds, (shape, digit))) = digits_first 19 v (omega arith) hv hb in
    let whole = read_unsigned-digits v c ys hv hb e in
    let shaped : read_unsigned (d ∷ (ds ++ c ∷ ys)) ≡ some v =
      ap (λ x. read_unsigned (x ++ c ∷ ys)) (sym shape) ∙ whole in
    ap (λ x. read_signed (x ++ c ∷ ys)) shape ∙ ground arith

read_signed-zero : (c : ℕ) (ys : Bytes) → Closes c → read_signed (b'0' ∷ c ∷ ys) ≡ some 0
unfolding read_signed read_unsigned read_value json_digit
read_signed-zero c ys (inl e) = ground arith
read_signed-zero c ys (inr e) = ground arith

read_signed-minus :
    (m c : ℕ) (ys : Bytes)
    → 0 < m
    → m ≤ 2 ^ 63
    → Closes c
    → read_signed (b'-' ∷ (digits m ++ c ∷ ys)) ≡ some (u64_mod - m)
unfolding read_signed negated
read_signed-minus m c ys hm hb e =
    rw (read_unsigned-digits m c ys hm (omega arith) e) (ap some (omega arith))

read_signed-json_int :
    (w c : ℕ) (ys : Bytes) → w < u64_mod → Closes c → read_signed (json_int w ++ c ∷ ys) ≡ some w
unfolding json_int
read_signed-json_int w c ys hw e = elim (eq_or_ne w 0) [
  | inl z ↦ rw z (read_signed-zero c ys e)
  | inr nz ↦ elim (Bool-cases (leb (2 ^ 63) w)) [
    | inl neg ↦
        let back : u64_mod - (u64_mod - w) ≡ w = omega arith in
        rw (==_ne w 0 nz, neg)
          (read_signed-minus (u64_mod - w) c ys (omega arith) (ground arith) e ∙ ap some back)
    | inr pos ↦ rw (==_ne w 0 nz, pos) (read_signed-digits w c ys (ground arith) (ground arith) e)
  ]
]

-- What each reader should make of a value.
unfoldable pub int_of : Option Value → Option ℕ
int_of (some (number w)) = some w
int_of _ = none

unfoldable pub bool_of : Option Value → Option Bool
bool_of (some (flag b)) = some b
bool_of _ = none

-- A text longer than the reader's limit is refused.
unfoldable pub text_of : ℕ → Option Value → Option Bytes
text_of max_len (some (text s)) = if leb (length s) max_len then some s else none
text_of max_len _ = none

unfoldable pub in_range : Option Value → Bool
in_range (some (number w)) = ltb w u64_mod
in_range _ = true

read_printed_int :
    (v : Value) (c : ℕ) (ys : Bytes)
    → Closes c
    → in_range (some v) ≡ true
    → read_signed (print_value v ++ c ∷ ys) ≡ int_of (some v)
unfolding print_value int_of in_range quoted read_signed read_unsigned json_digit
read_printed_int (number w) c ys e h = read_signed-json_int w c ys (ground arith) e
read_printed_int (flag true) c ys e h = refl
read_printed_int (flag false) c ys e h = refl
read_printed_int (text s) c ys e h = refl

number_no_bool :
    (xs : Bytes) (c : ℕ) (ys : Bytes)
    → lacks b't' xs ≡ true
    → lacks b'f' xs ≡ true
    → Closes c
    → bool_value (some (xs ++ c ∷ ys)) ≡ none
unfolding bool_value has_prefix after_prefix lacks
number_no_bool [] c ys t f (inl e) = ground arith
number_no_bool [] c ys t f (inr e) = ground arith
number_no_bool (x ∷ xs) c ys t f e = ground arith

read_printed_bool :
    (v : Value) (c : ℕ) (ys : Bytes)
    → Closes c
    → bool_value (some (print_value v ++ c ∷ ys)) ≡ bool_of (some v)
unfolding print_value bool_of quoted bool_value has_prefix after_prefix
read_printed_bool (number w) c ys e =
    number_no_bool (json_int w) c ys (lacks-json_int b't' w (inr (omega arith)))
      (lacks-json_int b'f' w (inr (omega arith))) e
read_printed_bool (flag true) c ys e = refl
read_printed_bool (flag false) c ys e = refl
read_printed_bool (text s) c ys e = refl

number_no_string :
    (max_len : ℕ) (xs : Bytes) (c : ℕ) (ys : Bytes)
    → lacks b'"' xs ≡ true
    → Closes c
    → string_value max_len (some (xs ++ c ∷ ys)) ≡ none
unfolding string_value lacks
number_no_string max_len [] c ys q (inl e) = ground arith
number_no_string max_len [] c ys q (inr e) = ground arith
number_no_string max_len (x ∷ xs) c ys q e = ground arith

push_over : (max_len n c : ℕ) (r : Option Bytes) → max_len < n + 1 → push_char max_len n c r ≡ none
unfolding push_char
push_over max_len n c none h = refl
push_over max_len n c (some s) h = ground arith

read_string-plain :
    (max_len n : ℕ) (s : Bytes) (c : ℕ) (ys : Bytes)
    → all_plain s ≡ true
    → n ≤ max_len
    → read_string max_len n (s ++ b'"' ∷ c ∷ ys)
      ≡ (if leb (n + length s) max_len then some s else none)
unfolding read_string push_char all_plain is_plain
read_string-plain max_len n [] c ys h k = ground arith
read_string-plain max_len n (x ∷ []) c ys h k = ground arith
read_string-plain max_len n (x ∷ (y ∷ s)) c ys h k = elim (dec_lt n max_len) [
  | yes p ↦ ground (arith, read_string-plain max_len (n + 1) (y ∷ s) c ys)
  | no p ↦
      ground (arith, push_over max_len n x (read_string max_len (n + 1) (y ∷ (s ++ b'"' ∷ c ∷ ys))))
]

read_printed_string :
    (max_len : ℕ) (v : Value) (c : ℕ) (ys : Bytes)
    → Closes c
    → plain_value v ≡ true
    → string_value max_len (some (print_value v ++ c ∷ ys)) ≡ text_of max_len (some v)
unfolding print_value text_of quoted plain_value string_value
read_printed_string max_len (number w) c ys e h =
    number_no_string max_len (json_int w) c ys (lacks-json_int b'"' w (inl (omega arith))) e
read_printed_string max_len (flag true) c ys e h = refl
read_printed_string max_len (flag false) c ys e h = refl
read_printed_string max_len (text s) c ys e h =
    ap (read_string max_len 0) (append_assoc s (b'"' ∷ []) (c ∷ ys))
    ∙ read_string-plain max_len 0 s c ys h (omega arith)
    ∙ ap (λ n. if leb n max_len then some s else none) (omega arith)

not_at_end-append :
    (xs : Bytes) (c : ℕ) (ys : Bytes) → not_at_end (some (xs ++ c ∷ ys)) ≡ some (xs ++ c ∷ ys)
unfolding not_at_end
not_at_end-append [] c ys = refl
not_at_end-append (x ∷ xs) c ys = refl

lookup_plain :
    (key : Bytes) (fs : Fields) (v : Value)
    → plain_fields fs ≡ true
    → lookup key fs ≡ some v
    → plain_value v ≡ true
unfolding lookup plain_fields
lookup_plain key [] v h e = absurd (ground arith)
lookup_plain key ((k, w) ∷ fs) v h e = elim (Bool-cases (bytes_eq key k)) [
  | inl same ↦
      let this : w ≡ v = ground arith in subst (λ x. plain_value x ≡ true) this (ground arith)
  | inr other ↦ lookup_plain key fs v (ground arith) (ground arith)
]

pub string_agrees :
    (key : Bytes) (fs : Fields) (max_len : ℕ)
    → is_key key ≡ true
    → plain_fields fs ≡ true
    → parse_json_string (print_object fs) key max_len ≡ text_of max_len (lookup key fs)
unfolding parse_json_string json_value_start
string_agrees key fs max_len k plain =
    let z = object-Found key k fs plain in
    elim (Option-cases (lookup key fs)) [
      | inl e ↦
          rw (e, z.missing e) (unfold not_at_end in unfold string_value in unfold text_of in refl)
      | inr (v, e) ↦
          let (c, (ys, (close, r))) = z.present v e in
          rw (e, r, not_at_end-append (print_value v) c ys)
            (read_printed_string max_len v c ys close (lookup_plain key fs v plain e))
    ]

-- On a flat JSON object without escapes, for a key that begins with a letter and whose number,
-- if it is one, is a 64-bit pattern, `parseJsonInt`, `parseJsonBool` and `parseJsonString`
-- return the first value of that key if it has their type and, for a text, their length, and
-- nothing otherwise.
pub readers_agree :
    (key : Bytes) (fs : Fields) (max_len : ℕ)
    → is_key key ≡ true
    → plain_fields fs ≡ true
    → in_range (lookup key fs) ≡ true
    → (parse_json_int (print_object fs) key ≡ int_of (lookup key fs))
      × (parse_json_bool (print_object fs) key ≡ bool_of (lookup key fs))
      × (parse_json_string (print_object fs) key max_len ≡ text_of max_len (lookup key fs))
unfolding parse_json_int parse_json_bool json_value_start signed_value
readers_agree key fs max_len k plain range =
    let z = object-Found key k fs plain in
    let string = string_agrees key fs max_len k plain in
    elim (Option-cases (lookup key fs)) [
      | inl e ↦
          let r = z.missing e in
          rw (e, r)
            (unfold not_at_end in
              unfold bool_value in unfold int_of in unfold bool_of in (refl, refl, rw e at string))
      | inr (v, e) ↦
          let (c, (ys, (close, r))) = z.present v e in
          rw (e, r, not_at_end-append (print_value v) c ys)
            (
              read_printed_int v c ys close (rw e at range),
              read_printed_bool v c ys close,
              rw e at string,
            )
    ]
