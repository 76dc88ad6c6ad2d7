-- ===== src/Ota/Version/Digits.antt =====
-- One part of a version: what `jsonInt` writes is read back, and nothing else is read.
use native.Mathlib.Decide.{dec_lt}
use native.Mathlib.Numerals.{add-one}
use native.Mathlib.Nat.{pow-suc, pow-le-pow_right}
use presence_platform.Prelude.{
  ℕ, zero, suc, ◌+◌, ◌-◌, ◌*◌, ◌/◌, ◌%◌, ◌^◌, ◌≤◌, ◌<◌, ◌≡◌, ◌⊎◌, subst, refl, ap, ◌∙◌, sym, [],
  ◌∷◌, ◌++◌, Bytes, length, length-append, append_assoc, true, false, some, arith, Bool-cases, inl,
  inr, ◌==◌,
}
use presence_platform.Decimal.{digits}
use presence_platform.Decimal.Laws.{digits_snoc, digits_one, length-digits}
use presence_platform.Ota.Version.{is_digit, read_digits}

pub read_digits_step :
    (d v n w m : ℕ) (cs : Bytes)
    → d < 10
    → v < 10 ^ 5
    → n < 5
    → w ≡ v * 10 + d
    → m ≡ n + 1
    → read_digits ((b'0' + d) ∷ cs) v n ≡ read_digits cs w m
unfolding read_digits is_digit
read_digits_step d v n w m cs hd hv hn ew em = ground arith

pow10_next : (n : ℕ) → 10 ^ (n + 1) ≡ 10 ^ n * 10
pow10_next n = rw add-one (pow-suc 10 n)

-- The digits of a positive value below `10 ^ k`, `k` at most 5, in front of any text.
pub read_digits-digits :
    (k v : ℕ) (cs : Bytes)
    → k ≤ 5
    → 0 < v
    → v < 10 ^ k
    → read_digits (digits v ++ cs) 0 0 ≡ read_digits cs v (length (digits v))
read_digits-digits zero v cs hk hv hb = absurd (omega arith)
read_digits-digits (suc k) v cs hk hv hb = elim (dec_lt v 10) [
  | yes p ↦
      rw (digits_one v hv p)
        (read_digits_step v 0 0 v 1 cs p (omega arith) (omega arith) (omega arith) refl)
  | no p ↦
      let split : v ≡ v / 10 * 10 + v % 10 = omega arith in
      let grown =
        digits_snoc (v / 10) (v % 10) (omega arith) (omega arith) (omega (arith, small)) in
      let first = digits (v / 10) in
      subst (λ w. read_digits (digits w ++ cs) 0 0 ≡ read_digits cs w (length (digits w)))
        (sym split)
        (rw
          (
            grown,
            append_assoc first ((b'0' + v % 10) ∷ []) cs,
            read_digits-digits k (v / 10) ((b'0' + v % 10) ∷ cs) (omega arith) (omega arith) tenth,
          )
          (read_digits_step (v % 10) (v / 10) (length first) _ _ cs (omega arith)
            (omega (arith, small)) (omega (arith, length-digits (v / 10) k tenth)) refl
            (length-append first _)))
]
  where
    tenth : v / 10 < 10 ^ k
    tenth = omega (arith, pow-suc 10 k)

    small : v < 10 ^ 5
    small = omega (arith, pow-le-pow_right {n = 10} (omega arith) hk)

-- Either a digit is read, and reading goes on, or the text stops here.
pub read_digits_inv :
    (c : ℕ) (cs : Bytes) (v n : ℕ) {w : ℕ} {rest : Bytes}
    → v < 10 ^ 5
    → read_digits (c ∷ cs) v n ≡ some (w, rest)
    → ((is_digit c ≡ true)
        × (n + 1 ≤ 5)
        × (read_digits cs (v * 10 + (c - b'0')) (n + 1) ≡ some (w, rest)))
      ⊎ ((is_digit c ≡ false) × (v ≡ w) × (c ∷ cs ≡ rest))
unfolding read_digits is_digit
read_digits_inv c cs v n h e = elim (Bool-cases (is_digit c)) [
  | inl p ↦ inl (ground arith)
  | inr p ↦ inr (ground arith)
]

pub digit_range : (c : ℕ) → is_digit c ≡ true → (b'0' + (c - b'0') ≡ c) × (c - b'0' < 10)
unfolding is_digit
digit_range c h = ground arith

-- Reading on from a positive value keeps the text: what is read is what `jsonInt` writes.
pub read_digits-canonical :
    (cs : Bytes) (v n : ℕ) {w : ℕ} {rest : Bytes}
    → 0 < v
    → v < 10 ^ n
    → n ≤ 5
    → read_digits cs v n ≡ some (w, rest)
    → (digits v ++ cs ≡ digits w ++ rest) × (0 < w)
read_digits-canonical [] v n hv hb hn e = unfold read_digits in (ground arith, ground arith)
read_digits-canonical (c ∷ cs) v n hv hb hn e =
    elim (read_digits_inv c cs v n (omega (arith, pow-le-pow_right {n = 10} (omega arith) hn)) e) [
      | inl (p, room, more) ↦
          let d = c - b'0' in
          let (back, below) = digit_range c p in
          let grown =
            digits_snoc v d hv below (omega (arith, pow-le-pow_right {n = 10} (omega arith) hn)) in
          let later =
            read_digits-canonical cs (v * 10 + d) (n + 1) (omega arith)
              (omega (arith, pow10_next n)) room more in
          (cc (append_assoc (digits v) (c ∷ []) cs, grown, back, later.0), later.1)
      | inr (p, same, stop) ↦ (cc, rw same at hv)
    ]

-- The first digit of a positive value is not 0.
pub digits-head :
    (k v : ℕ)
    → k ≤ 18
    → 0 < v
    → v < 10 ^ k
    → (c : ℕ) × (t : Bytes) × (digits v ≡ c ∷ t) × (is_digit c ≡ true) × ((c == b'0') ≡ false)
digits-head zero v hk hv hb = absurd (omega arith)
digits-head (suc k) v hk hv hb = elim (dec_lt v 10) [
  | yes p ↦ (b'0' + v, [], digits_one v hv p, unfold is_digit in ground arith, ground arith)
  | no p ↦
      let below : v / 10 < 10 ^ 18 =
        omega (arith, pow-suc 10 k, pow-le-pow_right {n = 10} (omega arith) hk) in
      let (c, t, e, dig, nz) =
        digits-head k (v / 10) (omega arith) (omega arith) (omega (arith, pow-suc 10 k)) in
      let split : v ≡ v / 10 * 10 + v % 10 = omega arith in
      (
        c,
        t ++ (b'0' + v % 10) ∷ [],
        ap digits split ∙ digits_snoc (v / 10) (v % 10) (omega arith) (omega arith) below ∙ rw e,
        dig,
        nz,
      )
]
