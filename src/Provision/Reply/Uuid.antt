-- ===== src/Provision/Reply/Uuid.antt =====
-- What a text is that the firmware takes for a UUID.
use presence_platform.Prelude.{
  ℕ, zero, suc, ◌+◌, ◌≤◌, ◌≡◌, ◌⊎◌, ◌↔◌, true, some, [], ◌∷◌, Bytes, length, get_elem?, arith, inl,
  inr, Bool-cases, refl, subst, ◌||◌, ◌==◌,
}
use presence_platform.Provision.Token.{token_hex_digit}
use presence_platform.Provision.Reply.{uuid_chars, is_uuid_text}

-- A hex digit of either case.
abbrev pub IsHexDigit : ℕ → Type 0
IsHexDigit c = ((b'0' ≤ c) × (c ≤ b'9')) ⊎ ((b'a' ≤ c) × (c ≤ b'f')) ⊎ ((b'A' ≤ c) × (c ≤ b'F'))

abbrev pub IsDashAt : ℕ → Type 0
IsDashAt i = (i ≡ 8) ⊎ (i ≡ 13) ⊎ (i ≡ 18) ⊎ (i ≡ 23)

-- What may stand at position `i` of a UUID.
abbrev pub IsUuidChar : ℕ → ℕ → Type 0
IsUuidChar i c = (IsDashAt i × (c ≡ b'-')) ⊎ (¬ IsDashAt i × IsHexDigit c)

-- 36 characters: dashes behind 8, 12, 16 and 20 hex digits, and hex digits.
abbrev pub IsUuid : Bytes → Type 0
IsUuid s = (length s ≡ 36) × ((i c : ℕ) → get_elem? s i ≡ some c → IsUuidChar i c)

uuid_char :
    (i c : ℕ) (cs : Bytes)
    → uuid_chars i (c ∷ cs) ≡ true
    → IsUuidChar i c × (uuid_chars (i + 1) cs ≡ true)
unfolding uuid_chars token_hex_digit
uuid_char i c cs h = elim (Bool-cases (i == 8 || i == 13 || i == 18 || i == 23)) [
  | inl e ↦ (inl (ground arith, ground arith), ground arith)
  | inr e ↦ (inr (λ d. ground arith, ground arith), ground arith)
]

uuid_chars-at :
    (i : ℕ) (s : Bytes)
    → uuid_chars i s ≡ true
    → (j c : ℕ) → get_elem? s j ≡ some c
    → IsUuidChar (i + j) c
uuid_chars-at i [] h j c e = absurd (ground arith)
uuid_chars-at i (x ∷ s) h zero c e =
    let (here, rest) = uuid_char i x s h in
    let same : x ≡ c = ground arith in
    let at : i ≡ i + 0 = omega arith in
    subst (λ k. IsUuidChar k c) at (subst (IsUuidChar i) same here)
uuid_chars-at i (x ∷ s) h (suc j) c e =
    let (here, rest) = uuid_char i x s h in
    let at : i + 1 + j ≡ i + suc j = omega arith in
    subst (λ k. IsUuidChar k c) at (uuid_chars-at (i + 1) s rest j c e)

uuid_char_step :
    (i c : ℕ) (cs : Bytes)
    → IsUuidChar i c
    → uuid_chars (i + 1) cs ≡ true
    → uuid_chars i (c ∷ cs) ≡ true
unfolding uuid_chars token_hex_digit
uuid_char_step i c cs k h = ground arith

at-uuid_chars :
    (i : ℕ) (s : Bytes)
    → ((j c : ℕ) → get_elem? s j ≡ some c → IsUuidChar (i + j) c)
    → uuid_chars i s ≡ true
unfolding uuid_chars
at-uuid_chars i [] h = refl
at-uuid_chars i (x ∷ s) h =
    let at : i + 0 ≡ i = omega arith in
    uuid_char_step i x s (subst (λ k. IsUuidChar k x) at (h 0 x refl)) (
      at-uuid_chars (i + 1) s (λ j c e.
        let shift : i + suc j ≡ i + 1 + j = omega arith in
        subst (λ k. IsUuidChar k c) shift (h (suc j) c e)))

pub is_uuid_text_iff : (s : Bytes) → (is_uuid_text s ≡ true) ↔ IsUuid s
unfolding is_uuid_text
is_uuid_text_iff s = (
  λ h. (
    ground arith,
    λ i c e.
        let at : 0 + i ≡ i = omega arith in
        let all : uuid_chars 0 s ≡ true = ground arith in
        subst (λ k. IsUuidChar k c) at (uuid_chars-at 0 s all i c e),
  ),
  λ (size, chars).
      (let all : uuid_chars 0 s ≡ true = at-uuid_chars 0 s (λ j c e.
          let at : j ≡ 0 + j = omega arith in subst (λ k. IsUuidChar k c) at (chars j c e)) in
        ground arith),
)
