-- ===== src/Events/Timestamp.antt =====
-- The text of a timestamp.
use native.Mathlib.Decide.{dec_lt}
use presence_platform.Prelude.{
  ℕ, suc, ◌+◌, ◌/◌, ◌%◌, ◌^◌, ◌≤◌, ◌<◌, min, ◌≡◌, refl, ap, ◌∙◌, false, [], ◌∷◌, ◌++◌, Bytes, leb,
  arith,
}
use presence_platform.Decimal.{reversed}
use presence_platform.Events.{
  low_padded, append_padded, civil_from_days, pinned_year, clock_text, date_text,
  format_rfc3339_utc,
}
use presence_platform.Events.Calendar.{
  days_in_month, days_before_month, days_before_year, civil_date_is_gregorian,
}

-- The last digits of a number.
unfoldable pub two_digits : ℕ → Bytes
two_digits v = (b'0' + v / 10) ∷ (b'0' + v % 10) ∷ []

unfoldable pub three_digits : ℕ → Bytes
three_digits v = (b'0' + v / 100) ∷ (b'0' + v / 10 % 10) ∷ (b'0' + v % 10) ∷ []

unfoldable pub four_digits : ℕ → Bytes
four_digits v =
    (b'0' + v / 1000) ∷ (b'0' + v / 100 % 10) ∷ (b'0' + v / 10 % 10) ∷ (b'0' + v % 10) ∷ []

low_padded_one : (k v : ℕ) → v < 10 → low_padded (suc k) v ≡ (b'0' + v) ∷ []
unfolding low_padded
low_padded_one k v h = ground arith

low_padded_more :
    (k v : ℕ) → 10 ≤ v → low_padded (suc k) v ≡ (b'0' + v % 10) ∷ low_padded k (v / 10)
unfolding low_padded
low_padded_more k v h = ground arith

padded_two : (v : ℕ) → v < 100 → append_padded v 2 ≡ two_digits v
unfolding append_padded two_digits reversed
padded_two v h = elim (dec_lt v 10) [
  | yes p ↦ rw (low_padded_one 19 v p) (ground arith)
  | no p ↦ rw (low_padded_more 19 v (omega arith), low_padded_one 18 (v / 10) (omega arith)) refl
]

padded_three : (v : ℕ) → v < 1000 → append_padded v 3 ≡ three_digits v
unfolding append_padded three_digits reversed
padded_three v h = elim (dec_lt v 10) [
  | yes p ↦ rw (low_padded_one 19 v p) (ground arith)
  | no p ↦ elim (dec_lt v 100) [
    | yes q ↦
        rw (low_padded_more 19 v (omega arith), low_padded_one 18 (v / 10) (omega arith))
          (ground arith)
    | no q ↦
        rw
          (
            low_padded_more 19 v (omega arith),
            low_padded_more 18 (v / 10) (omega arith),
            low_padded_one 17 (v / 10 / 10) (omega arith),
          )
          (ground arith)
  ]
]

padded_four : (v : ℕ) → v < 10000 → append_padded v 4 ≡ four_digits v
unfolding append_padded four_digits reversed
padded_four v h = elim (dec_lt v 10) [
  | yes p ↦ rw (low_padded_one 19 v p) (ground arith)
  | no p ↦ elim (dec_lt v 100) [
    | yes q ↦
        rw (low_padded_more 19 v (omega arith), low_padded_one 18 (v / 10) (omega arith))
          (ground arith)
    | no q ↦ elim (dec_lt v 1000) [
      | yes r ↦
          rw
            (
              low_padded_more 19 v (omega arith),
              low_padded_more 18 (v / 10) (omega arith),
              low_padded_one 17 (v / 10 / 10) (omega arith),
            )
            (ground arith)
      | no r ↦
          rw
            (
              low_padded_more 19 v (omega arith),
              low_padded_more 18 (v / 10) (omega arith),
              low_padded_more 17 (v / 10 / 10) (omega arith),
              low_padded_one 16 (v / 10 / 10 / 10) (omega arith),
            )
            (ground arith)
    ]
  ]
]

pinned_year-min : (y : ℕ) → pinned_year y ≡ min y 9999
unfolding pinned_year
pinned_year-min y = ground arith

days_in_month_le : (y m : ℕ) → days_in_month y m ≤ 31
unfolding days_in_month
days_in_month_le y m = ground arith

-- For milliseconds since 1970 that fit 63 bits, `formatRfc3339Utc` writes 24 characters, the
-- date and the time of day in padded decimal digits with their separators and a `Z`; the date
-- that it computes is one of the Gregorian calendar, as many days after 1970-01-01 as the
-- milliseconds say, and only its year, above 9999, is written as 9999.
pub timestamp_text :
    (ms : ℕ)
    → ms < 2 ^ 63
    → let c = civil_from_days (ms / 86400000) in
      let day_ms = ms % 86400000 in
      (format_rfc3339_utc ms
        ≡ four_digits (min c.year 9999)
          ++ b'-' ∷ two_digits c.month
          ++ b'-' ∷ two_digits c.day
          ++ b'T' ∷ two_digits (day_ms / 3600000)
          ++ b':' ∷ two_digits (day_ms / 60000 % 60)
          ++ b':' ∷ two_digits (day_ms / 1000 % 60)
          ++ b'.' ∷ three_digits (day_ms % 1000)
          ++ b'Z' ∷ [])
      × (1 ≤ c.month)
      × (c.month ≤ 12)
      × (1 ≤ c.day)
      × (c.day ≤ days_in_month c.year c.month)
      × (days_before_year c.year + days_before_month c.year c.month + c.day
          ≡ ms / 86400000 + 719163)
unfolding format_rfc3339_utc date_text clock_text four_digits two_digits three_digits
timestamp_text ms h =
    let c = civil_from_days (ms / 86400000) in
    let day_ms = ms % 86400000 in
    let (from_one, months, positive_day, days, number) = civil_date_is_gregorian (ms / 86400000) in
    let month_days = days_in_month_le c.year c.month in
    let positive : leb (2 ^ 63) ms ≡ false = ground arith in
    let year : append_padded (pinned_year c.year) 4 ≡ four_digits (min c.year 9999) =
      ap (λ y. append_padded y 4) (pinned_year-min c.year)
      ∙ padded_four (min c.year 9999) (omega arith) in
    let month = padded_two c.month (omega arith) in
    let day = padded_two c.day (omega arith) in
    let hour = padded_two (day_ms / 3600000) (omega arith) in
    let minute = padded_two (day_ms / 60000 % 60) (omega arith) in
    let second = padded_two (day_ms / 1000 % 60) (omega arith) in
    let milli = padded_three (day_ms % 1000) (omega arith) in
    (
      rw (positive, year, month, day, hour, minute, second, milli) refl,
      from_one,
      months,
      positive_day,
      days,
      number,
    )
