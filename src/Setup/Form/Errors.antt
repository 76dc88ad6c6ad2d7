-- ===== src/Setup/Form/Errors.antt =====
-- The error that a value gets if it does not decode.
use presence_platform.Prelude.{
  ℕ, zero, suc, ◌+◌, ◌*◌, ◌≤◌, ◌<◌, ◌≡◌, ◌≢◌, ◌↔◌, ◌⊎◌, refl, ap, ◌∙◌, subst, true, false, none,
  some, [], ◌∷◌, Bytes, length, arith, inl, inr, eq_or_ne, Option-cases, Bool-cases,
}
use native.Mathlib.Decide.{dec_le}
use presence_platform.Setup.Form.{
  hex_value, hex_pair, percent_decode, bad_escape, value_error, malformed, field_too_long,
}
use presence_platform.Setup.Form.Decoding.{
  digits-hex_pair, hex_pair-digits, Encodes, done, literal, space, escape, decode_iff,
}

bad_tail : (c : ℕ) (t : Bytes) → bad_escape (c ∷ t) ≡ false → bad_escape t ≡ false
unfolding bad_escape
bad_tail c [] h = refl
bad_tail c (d ∷ []) h = ground arith
bad_tail c (d ∷ (l ∷ t)) h = ground arith

bad_literal : (c : ℕ) (t : Bytes) → c ≢ b'%' → bad_escape (c ∷ t) ≡ bad_escape t
unfolding bad_escape
bad_literal c [] p = ground arith
bad_literal c (d ∷ []) p = ground arith
bad_literal c (d ∷ (l ∷ t)) p = ground arith

-- A `%` that the scan passes has two hex digits behind it.
good_escape :
    (t : Bytes)
    → bad_escape (b'%' ∷ t) ≡ false
    → (h : ℕ) × ((l : ℕ) × ((v : ℕ) × ((u : Bytes) × ((t ≡ h ∷ l ∷ u)
              × (hex_pair (hex_value h) (hex_value l) ≡ some v)))))
unfolding bad_escape
good_escape [] e = absurd (ground arith)
good_escape (h ∷ []) e = absurd (ground arith)
good_escape (h ∷ (l ∷ u)) e = elim (Option-cases (hex_pair (hex_value h) (hex_value l))) [
  | inl n ↦ absurd (ground arith)
  | inr (v, k) ↦ (h, (l, (v, (u, (refl, k)))))
]

hex_not_percent :
    (h l v : ℕ) → hex_pair (hex_value h) (hex_value l) ≡ some v → (h ≢ b'%') × (l ≢ b'%')
unfolding hex_pair hex_value
hex_not_percent h l v e = (λ p. ground arith, λ p. ground arith)

bad_pair :
    (c h l v : ℕ) (t : Bytes)
    → hex_pair (hex_value h) (hex_value l) ≡ some v
    → bad_escape (c ∷ h ∷ l ∷ t) ≡ bad_escape (h ∷ l ∷ t)
unfolding bad_escape
bad_pair c h l v t k = ground arith

Encodes-good : {t s : Bytes} → Encodes t s → bad_escape t ≡ false
unfolding bad_escape
Encodes-good done = refl
Encodes-good (literal {c} {t} {s} p q e) = bad_literal c t q ∙ Encodes-good e
Encodes-good (space {t} {s} e) = bad_literal b'+' t (omega arith) ∙ Encodes-good e
Encodes-good (escape {h} {l} {x} {y} {t} {s} p q e) =
    let v = 16 * x + y in
    let k = digits-hex_pair p q in
    let (first, second) = hex_not_percent h l v k in
    bad_pair b'%' h l v t k ∙ bad_literal h (l ∷ t) first ∙ bad_literal l t second ∙ Encodes-good e

-- Enough fuel is the length of the text.
good-Encodes : (n : ℕ) (t : Bytes) → length t ≤ n → bad_escape t ≡ false → (s : Bytes) × Encodes t s
good-Encodes n [] h e = ([], done)
good-Encodes zero (c ∷ t) h e = absurd (omega arith)
good-Encodes (suc n) (c ∷ t) h e = elim (eq_or_ne c b'%') [
  | inl p ↦
      let (x, (l, (v, (u, (shape, k))))) =
        good_escape t (subst (λ y. bad_escape (y ∷ t) ≡ false) p e) in
      let short : length u ≤ n = omega (arith, ap length shape) in
      let rest : bad_escape (x ∷ l ∷ u) ≡ false =
        subst (λ y. bad_escape y ≡ false) shape (bad_tail c t e) in
      let (s, enc) = good-Encodes n u short (bad_tail l u (bad_tail x (l ∷ u) rest)) in
      let (a, b, high, low, same) = hex_pair-digits x l v k in
      ((16 * a + b) ∷ s, rw (p, shape) (escape high low enc))
  | inr p ↦
      let (s, enc) = good-Encodes n t (omega arith) (bad_tail c t e) in
      elim (eq_or_ne c b'+') [
        | inl q ↦ (b' ' ∷ s, rw q (space enc))
        | inr q ↦ (c ∷ s, literal q p enc)
      ]
]

-- A text without a bad escape is an encoding, and an encoding has no bad escape.
pub bad_escape_iff : (t : Bytes) → (bad_escape t ≡ false) ↔ ((s : Bytes) × Encodes t s)
bad_escape_iff t = (good-Encodes (length t) t (omega arith), λ z. Encodes-good z.1)

value_error_of :
    (t : Bytes)
    → ((value_error t ≡ malformed) × (bad_escape t ≡ true))
      ⊎ ((value_error t ≡ field_too_long) × (bad_escape t ≡ false))
unfolding value_error
value_error_of t = elim (Bool-cases (bad_escape t)) [
  | inl h ↦ inl (rw h refl, h)
  | inr h ↦ inr (rw h refl, h)
]

-- A value that does not decode is reported as malformed if it encodes nothing, and as too long
-- if it encodes more bytes than the cap.
pub value_error_right :
    (t : Bytes) (cap : ℕ)
    → percent_decode cap t ≡ none
    → ((value_error t ≡ malformed) × ¬ ((s : Bytes) × Encodes t s))
      ⊎ ((value_error t ≡ field_too_long) × ((s : Bytes) × (Encodes t s × (cap < length s))))
value_error_right t cap h = elim (value_error_of t) [
  | inl (e, bad) ↦ inl (e, λ z. ground (arith, (bad_escape_iff t).1 z))
  | inr (e, good) ↦
      let (s, enc) = (bad_escape_iff t).0 good in
      inr (
        e,
        (
          s,
          (
            enc,
            elim (dec_le (length s) cap) [
              | yes p ↦ absurd (ground (arith, (decode_iff cap t s).1 (enc, p)))
              | no p ↦ omega arith
            ],
          ),
        ),
      )
]
