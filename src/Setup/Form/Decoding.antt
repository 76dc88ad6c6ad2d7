-- ===== src/Setup/Form/Decoding.antt =====
-- What `percentDecode` accepts: the texts that encode at most `cap` bytes.
use presence_platform.Prelude.{
  ℕ, zero, suc, ◌+◌, ◌*◌, ◌-◌, ◌≤◌, ◌<◌, ◌≡◌, ◌≢◌, ◌↔◌, refl, sym, subst, ap, ◌∙◌, ◌&&◌, leb,
  Bool-cases, Option-cases, Option, none, some, [], ◌∷◌, Bytes, length, arith, inl, inr, eq_or_ne,
}
use presence_platform.Setup.Form.{hex_value, hex_pair, put, plain, percent_decode}

-- The hex digit `c`, of either case, stands for `d`.
pub data HexDigit (c d : ℕ) : Type 0 where
  decimal : d < 10 → c ≡ b'0' + d → HexDigit c d
  small : 10 ≤ d → d < 16 → c + 10 ≡ b'a' + d → HexDigit c d
  capital : 10 ≤ d → d < 16 → c + 10 ≡ b'A' + d → HexDigit c d

-- `Encodes t s`: the text `t` is a form's encoding of the bytes `s`.
pub data Encodes : Bytes → Bytes → Type 0 where
  done : Encodes [] []
  literal : {c : ℕ} {t s : Bytes} → c ≢ b'+' → c ≢ b'%' → Encodes t s → Encodes (c ∷ t) (c ∷ s)
  space : {t s : Bytes} → Encodes t s → Encodes (b'+' ∷ t) (b' ' ∷ s)
  escape :
      {h l x y : ℕ} {t s : Bytes}
      → HexDigit h x
      → HexDigit l y
      → Encodes t s
      → Encodes (b'%' ∷ h ∷ l ∷ t) ((16 * x + y) ∷ s)

hex_value-HexDigit : (c v : ℕ) → hex_value c ≡ some v → HexDigit c v
unfolding hex_value
hex_value-HexDigit c v h = elim (Bool-cases (leb b'0' c && leb c b'9')) [
  | inl e ↦ decimal (ground arith) (ground arith)
  | inr e ↦ elim (Bool-cases (leb b'a' c && leb c b'f')) [
    | inl k ↦ small (ground arith) (ground arith) (ground arith)
    | inr k ↦ capital (ground arith) (ground arith) (ground arith)
  ]
]

HexDigit-value : {c v : ℕ} → HexDigit c v → hex_value c ≡ some v
unfolding hex_value
HexDigit-value (decimal h e) = ground arith
HexDigit-value (small h k e) = ground arith
HexDigit-value (capital h k e) = ground arith

-- A pair that was read is two digits.
pub hex_pair-digits :
    (h l v : ℕ)
    → hex_pair (hex_value h) (hex_value l) ≡ some v
    → (x : ℕ) × (y : ℕ) × HexDigit h x × HexDigit l y × (16 * x + y ≡ v)
unfolding hex_pair
hex_pair-digits h l v e = elim (Option-cases (hex_value h)) [
  | inl p ↦ absurd (ground arith)
  | inr (x, p) ↦ elim (Option-cases (hex_value l)) [
    | inl q ↦ absurd (ground arith)
    | inr (y, q) ↦ (x, y, hex_value-HexDigit h x p, hex_value-HexDigit l y q, ground arith)
  ]
]

pub digits-hex_pair :
    {h l x y : ℕ}
    → HexDigit h x
    → HexDigit l y
    → hex_pair (hex_value h) (hex_value l) ≡ some (16 * x + y)
unfolding hex_pair
digits-hex_pair {h} {l} {x} {y} p q =
    rw (HexDigit-value p, HexDigit-value q) (ap some (omega arith))

-- What `put` put together.
record Split (room : ℕ) (o : Option ℕ) (r : Option Bytes) (s : Bytes) : Type 0 where
  byte : ℕ
  rest : Bytes
  byte_eq : o ≡ some byte
  rest_eq : r ≡ some rest
  text_eq : byte ∷ rest ≡ s
  room_left : 0 < room

put-Split :
    (room : ℕ) (o : Option ℕ) (r : Option Bytes) {s : Bytes}
    → put room o r ≡ some s
    → Split room o r s
unfolding put
put-Split (suc room) (some c) (some t) h = record {
  byte = c;
  rest = t;
  byte_eq = refl;
  rest_eq = refl;
  text_eq = ground arith;
  room_left = omega arith;
}
put-Split zero o r h = absurd (ground arith)
put-Split (suc room) none r h = absurd (ground arith)
put-Split (suc room) (some c) none h = absurd (ground arith)

-- What the decoder makes of a text `t` in `room` bytes.
Reads : ℕ → Bytes → Bytes → Type 0
Reads room t s = Encodes t s × (length s ≤ room)

plain-Encodes : (c b : ℕ) {t s : Bytes} → plain c ≡ some b → Encodes t s → Encodes (c ∷ t) (b ∷ s)
unfolding plain
plain-Encodes c b {t} {s} h e = elim (eq_or_ne c b'+') [
  | inl p ↦
      let blank : b' ' ≡ b = ground arith in
      subst (λ x. Encodes (x ∷ t) (b ∷ s)) (sym p)
        (subst (λ x. Encodes (b'+' ∷ t) (x ∷ s)) blank (space e))
  | inr p ↦
      let same : c ≡ b = ground arith in
      subst (λ x. Encodes (c ∷ t) (x ∷ s)) same (literal p (ground arith) e)
]

plain_step :
    (room c : ℕ) (t : Bytes) {s : Bytes}
    → ((r : Bytes) → percent_decode (room - 1) t ≡ some r → Reads (room - 1) t r)
    → put room (plain c) (percent_decode (room - 1) t) ≡ some s
    → Reads room (c ∷ t) s
unfolding Reads
plain_step room c t {s} deeper h =
    let z = put-Split room (plain c) (percent_decode (room - 1) t) h in
    let (enc, short) = deeper z.rest z.rest_eq in
    subst (λ x. Encodes (c ∷ t) x × (length x ≤ room)) z.text_eq
      (plain-Encodes c z.byte z.byte_eq enc, omega (arith, z.room_left, short))

escape_step :
    (room h l : ℕ) (t : Bytes) {s : Bytes}
    → ((r : Bytes) → percent_decode (room - 1) t ≡ some r → Reads (room - 1) t r)
    → put room (hex_pair (hex_value h) (hex_value l)) (percent_decode (room - 1) t) ≡ some s
    → Reads room (b'%' ∷ h ∷ l ∷ t) s
unfolding Reads
escape_step room h l t {s} deeper e =
    let z = put-Split room (hex_pair (hex_value h) (hex_value l)) (percent_decode (room - 1) t) e in
    let (enc, short) = deeper z.rest z.rest_eq in
    let (x, y, high, low, same) = hex_pair-digits h l z.byte z.byte_eq in
    subst (λ u. Encodes (b'%' ∷ h ∷ l ∷ t) u × (length u ≤ room))
      (ap (λ b. b ∷ z.rest) same ∙ z.text_eq)
      (escape high low enc, omega (arith, z.room_left, short))

decode-Reads : (room : ℕ) (t : Bytes) {s : Bytes} → percent_decode room t ≡ some s → Reads room t s
unfolding percent_decode Reads
decode-Reads room [] {s} e =
    subst (λ x. Encodes [] x × (length x ≤ room)) (ground arith) (done, omega arith)
decode-Reads room (c ∷ []) e = plain_step room c [] (λ r. decode-Reads (room - 1) [] {s = r}) e
decode-Reads room (c ∷ (h ∷ [])) e =
    plain_step room c (h ∷ []) (λ r. decode-Reads (room - 1) (h ∷ []) {s = r}) e
decode-Reads room (c ∷ (h ∷ (l ∷ t))) {s} e = elim (eq_or_ne c b'%') [
  | inl p ↦
      subst (λ x. Reads room (x ∷ h ∷ l ∷ t) s) (sym p)
        (escape_step room h l t (λ r. decode-Reads (room - 1) t {s = r}) (ground arith))
  | inr p ↦
      plain_step room c (h ∷ l ∷ t) (λ r. decode-Reads (room - 1) (h ∷ l ∷ t) {s = r})
        (ground arith)
]

put-some : (room c : ℕ) (r : Bytes) → 0 < room → put room (some c) (some r) ≡ some (c ∷ r)
unfolding put
put-some zero c r h = absurd (omega arith)
put-some (suc room) c r h = refl

decode_plain :
    (room c : ℕ) (t : Bytes)
    → c ≢ b'%'
    → percent_decode room (c ∷ t) ≡ put room (plain c) (percent_decode (room - 1) t)
unfolding percent_decode
decode_plain room c [] p = refl
decode_plain room c (h ∷ []) p = refl
decode_plain room c (h ∷ (l ∷ t)) p = ground arith

plain_literal : (c : ℕ) → c ≢ b'+' → c ≢ b'%' → plain c ≡ some c
unfolding plain
plain_literal c p q = ground arith

Encodes-decode :
    (room : ℕ) {t s : Bytes} → Encodes t s → length s ≤ room → percent_decode room t ≡ some s
unfolding percent_decode
Encodes-decode room done h = refl
Encodes-decode room (literal {c} {t} {s} p q e) h =
    rw (decode_plain room c t q, plain_literal c p q, Encodes-decode (room - 1) e (omega arith))
      (put-some room c s (omega arith))
Encodes-decode room (space {t} {s} e) h =
    rw (decode_plain room b'+' t (omega arith), Encodes-decode (room - 1) e (omega arith))
      (unfold plain in put-some room b' ' s (omega arith))
Encodes-decode room (escape {h} {l} {x} {y} {t} {s} p q e) k =
    rw (digits-hex_pair p q, Encodes-decode (room - 1) e (omega arith))
      (put-some room (16 * x + y) s (omega arith))

-- `percentDecode` with a cap returns the bytes `s` from the text `t` exactly if `t` is a form's
-- encoding of `s` (a byte as itself, `+` for a space, `%` and the two hex digits, of either
-- case, of a byte) and `s` has at most as many bytes as the cap.
pub decode_iff :
    (cap : ℕ) (t s : Bytes) → (percent_decode cap t ≡ some s) ↔ (Encodes t s × (length s ≤ cap))
unfolding Reads
decode_iff cap t s = (λ e. decode-Reads cap t e, λ h. Encodes-decode cap h.0 h.1)
