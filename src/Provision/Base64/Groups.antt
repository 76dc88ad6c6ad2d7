-- ===== src/Provision/Base64/Groups.antt =====
-- The groups of four characters that `decodeBase64Exact` accepts.
use presence_platform.Prelude.{
  IsByte, ℕ, ◌+◌, ◌*◌, ◌/◌, ◌%◌, ◌^◌, ◌≡◌, ap, sym, ◌∙◌, false, some, [], ◌∷◌, Bytes, ◌==◌, arith,
  Option-cases, inl, inr,
}
use presence_platform.Provision.Base64.{read_group, group_bytes}
use presence_platform.Provision.Base64.Canonical.{
  base64_char, read_group-Sextet, read_two, read_three, read_four, group_12, group_18, group_24,
  spare_12, spare_18,
}

abbrev pub IsChar : ℕ → Type 0
IsChar c = (c == b'=') ≡ false

-- A full group is the encoding of three bytes.
pub record Full (a b c d : ℕ) (g : Bytes) : Type 0 where
  pub x : ℕ
  pub y : ℕ
  pub z : ℕ
  pub small : IsByte x × (IsByte y × IsByte z)
  pub bytes_eq : x ∷ y ∷ z ∷ [] ≡ g
  pub a_eq : base64_char (x / 4) ≡ a
  pub b_eq : base64_char (x % 4 * 16 + y / 16) ≡ b
  pub c_eq : base64_char (y % 16 * 4 + z / 64) ≡ c
  pub d_eq : base64_char (z % 64) ≡ d

pub group-Full :
    (a b c d : ℕ) {g : Bytes}
    → IsChar a
    → IsChar b
    → IsChar c
    → IsChar d
    → group_bytes (read_group (a ∷ b ∷ c ∷ d ∷ []) 0 0) ≡ some g
    → Full a b c d g
group-Full a b c d {g} ha hb hc hd e = elim (Option-cases (read_group (a ∷ b ∷ c ∷ d ∷ []) 0 0)) [
  | inl n ↦ absurd (unfold group_bytes in ground arith)
  | inr (r, k) ↦
      let r1 = read_group-Sextet a _ _ _ r ha k in
      let r2 = read_group-Sextet b _ _ _ r hb r1.rest_eq in
      let r3 = read_group-Sextet c _ _ _ r hc r2.rest_eq in
      let r4 = read_group-Sextet d _ _ _ r hd r3.rest_eq in
      let n = (((0 * 64 + r1.value) * 64 + r2.value) * 64 + r3.value) * 64 + r4.value in
      let read =
        read_four r1.value r2.value r3.value r4.value r1.small r2.small r3.small r4.small in
      let whole : read_group (a ∷ b ∷ c ∷ d ∷ []) 0 0 ≡ some (n, 24) =
        rw (r1.char_eq, r2.char_eq, r3.char_eq, r4.char_eq) at read in
      let made : some (n / 2 ^ 16 % 256 ∷ n / 2 ^ 8 % 256 ∷ n / 2 ^ 0 % 256 ∷ []) ≡ some g =
        sym (group_24 n) ∙ sym (ap group_bytes whole) ∙ e in
      record {
        x = n / 2 ^ 16 % 256;
        y = n / 2 ^ 8 % 256;
        z = n / 2 ^ 0 % 256;
        small = (omega arith, (omega arith, omega arith));
        bytes_eq = ground arith;
        a_eq = ap base64_char (omega (arith, r1.small, r2.small, r3.small, r4.small)) ∙ r1.char_eq;
        b_eq = ap base64_char (omega (arith, r1.small, r2.small, r3.small, r4.small)) ∙ r2.char_eq;
        c_eq = ap base64_char (omega (arith, r1.small, r2.small, r3.small, r4.small)) ∙ r3.char_eq;
        d_eq = ap base64_char (omega (arith, r1.small, r2.small, r3.small, r4.small)) ∙ r4.char_eq;
      }
]

-- A group with one `=` is the encoding of two bytes.
pub record Two (a b c : ℕ) (g : Bytes) : Type 0 where
  pub x : ℕ
  pub y : ℕ
  pub small : IsByte x × IsByte y
  pub bytes_eq : x ∷ y ∷ [] ≡ g
  pub a_eq : base64_char (x / 4) ≡ a
  pub b_eq : base64_char (x % 4 * 16 + y / 16) ≡ b
  pub c_eq : base64_char (y % 16 * 4) ≡ c

pub group-Two :
    (a b c : ℕ) {g : Bytes}
    → IsChar a
    → IsChar b
    → IsChar c
    → group_bytes (read_group (a ∷ b ∷ c ∷ b'=' ∷ []) 0 0) ≡ some g
    → Two a b c g
group-Two a b c {g} ha hb hc e = elim (Option-cases (read_group (a ∷ b ∷ c ∷ b'=' ∷ []) 0 0)) [
  | inl n ↦ absurd (unfold group_bytes in ground arith)
  | inr (r, k) ↦
      let r1 = read_group-Sextet a _ _ _ r ha k in
      let r2 = read_group-Sextet b _ _ _ r hb r1.rest_eq in
      let r3 = read_group-Sextet c _ _ _ r hc r2.rest_eq in
      let n = ((0 * 64 + r1.value) * 64 + r2.value) * 64 + r3.value in
      let read = read_three r1.value r2.value r3.value r1.small r2.small r3.small in
      let whole : read_group (a ∷ b ∷ c ∷ b'=' ∷ []) 0 0 ≡ some (n, 18) =
        rw (r1.char_eq, r2.char_eq, r3.char_eq) at read in
      let spare = spare_18 n (sym (ap group_bytes whole) ∙ e) in
      let made : some (n / 2 ^ 10 % 256 ∷ n / 2 ^ 2 % 256 ∷ []) ≡ some g =
        sym (group_18 n spare) ∙ sym (ap group_bytes whole) ∙ e in
      record {
        x = n / 2 ^ 10 % 256;
        y = n / 2 ^ 2 % 256;
        small = (omega arith, omega arith);
        bytes_eq = ground arith;
        a_eq = ap base64_char (omega (arith, r1.small, r2.small, r3.small, spare)) ∙ r1.char_eq;
        b_eq = ap base64_char (omega (arith, r1.small, r2.small, r3.small, spare)) ∙ r2.char_eq;
        c_eq = ap base64_char (omega (arith, r1.small, r2.small, r3.small, spare)) ∙ r3.char_eq;
      }
]

-- A group with two `=` is the encoding of one byte.
pub record One (a b : ℕ) (g : Bytes) : Type 0 where
  pub x : ℕ
  pub small : IsByte x
  pub bytes_eq : x ∷ [] ≡ g
  pub a_eq : base64_char (x / 4) ≡ a
  pub b_eq : base64_char (x % 4 * 16) ≡ b

pub group-One :
    (a b : ℕ) {g : Bytes}
    → IsChar a
    → IsChar b
    → group_bytes (read_group (a ∷ b ∷ b'=' ∷ b'=' ∷ []) 0 0) ≡ some g
    → One a b g
group-One a b {g} ha hb e = elim (Option-cases (read_group (a ∷ b ∷ b'=' ∷ b'=' ∷ []) 0 0)) [
  | inl n ↦ absurd (unfold group_bytes in ground arith)
  | inr (r, k) ↦
      let r1 = read_group-Sextet a _ _ _ r ha k in
      let r2 = read_group-Sextet b _ _ _ r hb r1.rest_eq in
      let n = (0 * 64 + r1.value) * 64 + r2.value in
      let read = read_two r1.value r2.value r1.small r2.small in
      let whole : read_group (a ∷ b ∷ b'=' ∷ b'=' ∷ []) 0 0 ≡ some (n, 12) =
        rw (r1.char_eq, r2.char_eq) at read in
      let spare = spare_12 n (sym (ap group_bytes whole) ∙ e) in
      let made : some (n / 2 ^ 4 % 256 ∷ []) ≡ some g =
        sym (group_12 n spare) ∙ sym (ap group_bytes whole) ∙ e in
      record {
        x = n / 2 ^ 4 % 256;
        small = omega arith;
        bytes_eq = ground arith;
        a_eq = ap base64_char (omega (arith, r1.small, r2.small, spare)) ∙ r1.char_eq;
        b_eq = ap base64_char (omega (arith, r1.small, r2.small, spare)) ∙ r2.char_eq;
      }
]
