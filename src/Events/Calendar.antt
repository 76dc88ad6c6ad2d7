-- ===== src/Events/Calendar.antt =====
-- The date in a timestamp, against the rules of the Gregorian calendar.
use presence_platform.Prelude.{
  ℕ, zero, suc, ◌+◌, ◌-◌, ◌*◌, ◌/◌, ◌%◌, ◌≤◌, ◌<◌, ◌≡◌, refl, sym, subst, Bool, true, false, ◌&&◌,
  ◌||◌, not, ◌==◌, ltb, leb, if◌then◌else◌, arith, Bool-cases, inl, inr,
}
use presence_platform.Events.{
  CivilDate, year_of_era, day_of_year, month_part, civil_in_era, civil_from_days,
}

-- The day lies in its year of the era.
year_of_era_low :
    (doe : ℕ)
    → doe < 146097
    → 365 * year_of_era doe + year_of_era doe / 4 - year_of_era doe / 100 ≤ doe
unfolding year_of_era
year_of_era_low doe h = omega arith

-- The Gregorian calendar.
unfoldable pub is_leap : ℕ → Bool
is_leap y = y % 4 == 0 && (not (y % 100 == 0) || y % 400 == 0)

unfoldable pub days_in_month : ℕ → ℕ → ℕ
days_in_month y m =
    if m == 2
    then (if is_leap y then 29 else 28)
    else if m == 4 || m == 6 || m == 9 || m == 11
    then 30
    else 31

-- The days of a year before a month.
unfoldable pub days_before_month : ℕ → ℕ → ℕ
days_before_month y zero = 0
days_before_month y (suc zero) = 0
days_before_month y (suc (suc m)) = days_before_month y (suc m) + days_in_month y (suc m)

-- The days before the first day of a year, from 0001-01-01.
unfoldable pub days_before_year : ℕ → ℕ
days_before_year y = 365 * (y - 1) + (y - 1) / 4 - (y - 1) / 100 + (y - 1) / 400

year_of_era_high :
    (doe : ℕ)
    → doe < 146097
    → let y = year_of_era doe in
      (y < 400)
      × (doe ≤ 365 * y + y / 4 - y / 100 + 365)
      × (doe ≤ 365 * y + y / 4 - y / 100 + 364 + (if is_leap (y + 1) then 1 else 0))
unfolding year_of_era is_leap
year_of_era_high doe h = (omega arith, omega arith, ground arith)

-- A date of the calendar, as the day number `n` from 0001-01-01, which is day 1.
abbrev IsDate : CivilDate → ℕ → Type 0
IsDate c n =
    (1 ≤ c.month)
    × (c.month ≤ 12)
    × (1 ≤ c.day)
    × (c.day ≤ days_in_month c.year c.month)
    × (days_before_year c.year + days_before_month c.year c.month + c.day ≡ n)

-- A day of the months from March to December.
late_month :
    (mp era yoe doy n : ℕ)
    → mp < 10
    → yoe < 400
    → 1 ≤ n
    → month_part doy ≡ mp
    → n + 305 ≡ 146097 * era + (365 * yoe + yoe / 4 - yoe / 100) + doy
    → IsDate
        (record { year = yoe + era * 400 + 0; month = mp + 3; day = doy - (153 * mp + 2) / 5 + 1 })
        n
unfolding month_part days_in_month days_before_month days_before_year is_leap
late_month zero era yoe doy n hp hy h1 hm hn =
    (omega arith, omega arith, omega arith, ground arith, ground arith)
late_month (suc zero) era yoe doy n hp hy h1 hm hn =
    (omega arith, omega arith, omega arith, ground arith, ground arith)
late_month (suc (suc zero)) era yoe doy n hp hy h1 hm hn =
    (omega arith, omega arith, omega arith, ground arith, ground arith)
late_month (suc (suc (suc zero))) era yoe doy n hp hy h1 hm hn =
    (omega arith, omega arith, omega arith, ground arith, ground arith)
late_month (suc (suc (suc (suc zero)))) era yoe doy n hp hy h1 hm hn =
    (omega arith, omega arith, omega arith, ground arith, ground arith)
late_month (suc (suc (suc (suc (suc zero))))) era yoe doy n hp hy h1 hm hn =
    (omega arith, omega arith, omega arith, ground arith, ground arith)
late_month (suc (suc (suc (suc (suc (suc zero)))))) era yoe doy n hp hy h1 hm hn =
    (omega arith, omega arith, omega arith, ground arith, ground arith)
late_month (suc (suc (suc (suc (suc (suc (suc zero))))))) era yoe doy n hp hy h1 hm hn =
    (omega arith, omega arith, omega arith, ground arith, ground arith)
late_month (suc (suc (suc (suc (suc (suc (suc (suc zero)))))))) era yoe doy n hp hy h1 hm hn =
    (omega arith, omega arith, omega arith, ground arith, ground arith)
late_month (suc (suc (suc (suc (suc (suc (suc (suc (suc zero))))))))) era yoe doy n hp hy h1 hm hn =
    (omega arith, omega arith, omega arith, ground arith, ground arith)
late_month (suc (suc (suc (suc (suc (suc (suc (suc (suc (suc mp)))))))))) era yoe doy n hp hy h1 hm
      hn =
    absurd (omega arith)

-- A day of January or February, in the year that follows.
early_month :
    (mp era yoe doy n : ℕ)
    → mp < 2
    → yoe < 400
    → doy ≤ 364 + (if is_leap (yoe + 1) then 1 else 0)
    → month_part doy ≡ mp + 10
    → n + 305 ≡ 146097 * era + (365 * yoe + yoe / 4 - yoe / 100) + doy
    → IsDate
        (record {
          year = yoe + era * 400 + 1;
          month = mp + 1;
          day = doy - (153 * (mp + 10) + 2) / 5 + 1;
        })
        n
unfolding month_part days_in_month days_before_month days_before_year is_leap
early_month zero era yoe doy n hp hy hd hm hn =
    (omega arith, omega arith, omega arith, ground arith, ground arith)
early_month (suc zero) era yoe doy n hp hy hd hm hn =
    (omega arith, omega arith, omega arith, ground arith, ground arith)
early_month (suc (suc mp)) era yoe doy n hp hy hd hm hn = absurd (omega arith)

civil-IsDate :
    (era doe n : ℕ)
    → doe < 146097
    → 1 ≤ n
    → n + 305 ≡ 146097 * era + doe
    → IsDate (civil_in_era era doe) n
unfolding civil_in_era
civil-IsDate era doe n h h1 hn =
    let yoe = year_of_era doe in
    let doy = day_of_year doe yoe in
    let low = year_of_era_low doe h in
    let (years, days, leap) = year_of_era_high doe h in
    let whole : n + 305 ≡ 146097 * era + (365 * yoe + yoe / 4 - yoe / 100) + doy =
      unfold day_of_year in omega arith in
    let short : doy ≤ 364 + (if is_leap (yoe + 1) then 1 else 0) =
      unfold day_of_year in omega (arith, leap, low) in
    let part : month_part doy < 12 =
      unfold day_of_year in unfold month_part in omega (arith, days, low) in
    elim (Bool-cases (ltb (month_part doy) 10)) [
      | inl late ↦
          let m_large : leb (month_part doy + 3) 2 ≡ false = ground arith in
          let z = late_month (month_part doy) era yoe doy n (ground arith) years h1 refl whole in
          rw (late, m_large) z
      | inr early ↦
          let k = month_part doy - 10 in
          let same : month_part doy ≡ k + 10 = ground arith in
          let month : month_part doy - 9 ≡ k + 1 = ground arith in
          let m_small : leb (k + 1) 2 ≡ true = ground arith in
          let z = early_month k era yoe doy n (omega arith) years short same whole in
          rw (early, month, m_small)
            (subst
              (λ x.
                IsDate
                  (record {
                    year = yoe + era * 400 + 1;
                    month = k + 1;
                    day = doy - (153 * x + 2) / 5 + 1;
                  })
                  n)
              (sym same) z)
    ]

-- The year, month and day that `formatRfc3339Utc` computes for a number of days since
-- 1970-01-01, before the year is pinned to four digits, are a date of the Gregorian calendar,
-- and that date is so many days after 1970-01-01.
pub civil_date_is_gregorian :
    (days : ℕ)
    → let c = civil_from_days days in
      (1 ≤ c.month)
      × (c.month ≤ 12)
      × (1 ≤ c.day)
      × (c.day ≤ days_in_month c.year c.month)
      × (days_before_year c.year + days_before_month c.year c.month + c.day ≡ days + 719163)
unfolding civil_from_days
civil_date_is_gregorian days =
    civil-IsDate ((days + 719468) / 146097) ((days + 719468) % 146097) (days + 719163) (omega arith)
      (omega arith) (omega arith)
