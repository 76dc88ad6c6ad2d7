-- ===== src/Ota/Version/Parts.antt =====
-- A part of a version and its decimal text determine one another.
use presence_platform.Prelude.{
  ℕ, zero, suc, ◌+◌, ◌-◌, ◌*◌, ◌^◌, ◌≤◌, ◌<◌, ◌≡◌, refl, ◌∙◌, [], ◌∷◌, ◌++◌, Bytes, length, true,
  false, some, arith, inl, inr, ◌==◌, ◌&&◌, le→ltb-false,
}
use presence_platform.Decimal.{digits, json_int}
use presence_platform.Decimal.Laws.{digits_one}
use presence_platform.Ota.Version.{is_digit, read_digits, starts_with_digit, read_part}
use presence_platform.Ota.Version.Digits.{
  read_digits_step, read_digits-digits, read_digits_inv, digit_range, read_digits-canonical,
  digits-head,
}

pub json_int-zero : json_int 0 ≡ b'0' ∷ []
unfolding json_int
json_int-zero = refl

pub json_int_pos : (v : ℕ) → 0 < v → v < 2 ^ 63 → json_int v ≡ digits v
unfolding json_int
json_int_pos v h k = ground arith

read_digits_stop :
    (rest : Bytes) (v n : ℕ)
    → starts_with_digit rest ≡ false
    → read_digits rest v n ≡ some (v, rest)
unfolding read_digits starts_with_digit
read_digits_stop [] v n h = refl
read_digits_stop (c ∷ cs) v n h = rw h

read_part_lem :
    (c v : ℕ) (cs rest : Bytes)
    → is_digit c ≡ true
    → (c == b'0' && starts_with_digit cs) ≡ false
    → read_digits (c ∷ cs) 0 0 ≡ some (v, rest)
    → v ≤ 65535
    → read_part (c ∷ cs) ≡ some (v, rest)
unfolding read_part
read_part_lem c v cs rest h k e b = rw (h, k, e, le→ltb-false 65535 v b)

pub read_part-json_int :
    (v : ℕ) (rest : Bytes)
    → v ≤ 65535
    → starts_with_digit rest ≡ false
    → read_part (json_int v ++ rest) ≡ some (v, rest)
read_part-json_int zero rest h k = rw json_int-zero (
    read_part_lem b'0' 0 rest rest (unfold is_digit in refl) (rw k)
      (read_digits_step 0 0 0 0 1 rest (omega arith) (omega arith) (omega arith) refl refl
        ∙ read_digits_stop rest 0 1 k)
      (omega arith))
read_part-json_int (suc u) rest h k =
    let v = suc u in
    let (c, t, e, dig, nz) = digits-head 5 v (omega arith) (omega arith) (omega arith) in
    let read =
      read_digits-digits 5 v rest (omega arith) (omega arith) (omega arith)
      ∙ read_digits_stop rest v (length (digits v)) k in
    rw (json_int_pos v (omega arith) (omega arith), e)
      (read_part_lem c v (t ++ rest) rest dig (rw nz) (rw e at read) h)

read_part_inv :
    (c : ℕ) (cs : Bytes) {v : ℕ} {rest : Bytes}
    → read_part (c ∷ cs) ≡ some (v, rest)
    → (is_digit c ≡ true)
      × ((c == b'0' && starts_with_digit cs) ≡ false)
      × (read_digits (c ∷ cs) 0 0 ≡ some (v, rest))
      × (v ≤ 65535)
unfolding read_part
read_part_inv c cs e = ground arith

-- The first digit of a part, at 0 and at any other.
first_digit :
    (d v : ℕ) (cs rest : Bytes)
    → d < 10
    → (b'0' + d == b'0' && starts_with_digit cs) ≡ false
    → read_digits cs d 1 ≡ some (v, rest)
    → v ≤ 65535
    → (b'0' + d) ∷ cs ≡ json_int v ++ rest
first_digit zero v cs rest h k e b =
    let stop = read_digits_stop cs 0 1 k in cc (stop, e, json_int-zero)
first_digit (suc d) v cs rest h k e b =
    let (same, pos) =
      read_digits-canonical cs (suc d) 1 (omega arith) (omega arith) (omega arith) e in
    cc (same, digits_one (suc d) (omega arith) h, json_int_pos v pos (omega arith))

-- What a part is read from is what `jsonInt` writes for its value.
pub read_part-canonical :
    (s : Bytes) {v : ℕ} {rest : Bytes}
    → read_part s ≡ some (v, rest)
    → (s ≡ json_int v ++ rest) × (v ≤ 65535)
read_part-canonical [] e = unfold read_part in absurd (cc)
read_part-canonical (c ∷ cs) {v} {rest} e =
    let (dig, lead, read, small) = read_part_inv c cs e in
    let (back, below) = digit_range c dig in
    elim (read_digits_inv c cs 0 0 (omega arith) read) [
      | inl (p, room, more) ↦
          let at_one : 0 * 10 + (c - b'0') ≡ c - b'0' = omega arith in
          (
            rw (← back) (
                first_digit (c - b'0') v cs rest below (rw (← back) at lead) (rw at_one at more)
                  small),
            small,
          )
      | inr (p, same, stop) ↦ absurd (cc (dig, p))
    ]
