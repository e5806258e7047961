-- ===== src/Parser/Timestamp/Epoch.antt =====
-- to_epoch_ms of include/nexusfix/parser/timestamp_parser.hpp counts the days of the calendar.
use nexus_fix.Base.{
  ℕ, zero, suc, ◌+◌, ◌-◌, ◌*◌, ◌/◌, ◌%◌, ◌^◌, ◌≤◌, ◌<◌, ◌≡◌, refl, ap, ◌∙◌, inl, inr, Bool, true,
  false, ◌&&◌, arith, ltb, leb, ◌==◌, if◌then◌else◌, Bool-cases,
}
use nexus_fix.Base.Words.{ℤ, pos, ◌+ℤ◌, ◌-ℤ◌, ◌*ℤ◌, ◌/ℤ◌, cast_u32}
use nexus_fix.Parser.Timestamp.{
  ParsedTimestamp, validate_ranges, march_year, era_of, day_of_year, day_of_era, days_from_civil,
  to_epoch_ms,
}
use nexus_fix.Parser.Timestamp.Calendar.{
  is_leap, days_in_month, years_since_1970, months_since_january, calendar_days, leap_days,
  years_before, leap_days_before, months_since_january-le,
}

era_closed :
    (y : ℕ)
    → y / 400 * 146097 + (y % 400 * 365 + y % 400 / 4 - y % 400 / 100) ≡ 365 * y + leap_days y
era_closed y = omega arith

-- The first day of each month in the year that begins in March, against the table of the months.
march_table : Bool → ℕ → Bool
march_table leap n =
    if ltb n 2
    then day_of_year (n + 1) 1 == months_since_january leap n + 306
    else day_of_year (n + 1) 1 + 59 + (if leap then 1 else 0) == months_since_january leap n

-- The same of the first months of a year.
march_tables : Bool → ℕ → Bool
march_tables leap zero = true
march_tables leap (suc months) = march_tables leap months && march_table leap months

one_of :
    (leap : Bool) (month months : ℕ)
    → month < months
    → march_tables leap months ≡ true
    → march_table leap month ≡ true
unfolding march_tables
one_of leap month zero m _ = absurd (omega arith)
one_of leap month (suc months) m checked = elim (Bool-cases (ltb month months)) [
  | inl e ↦ one_of leap month months (ground arith) (ground arith)
  | inr e ↦ let last : month ≡ months = ground arith in ap (march_table leap) last ∙ ground arith
]

march_tables-year : (leap : Bool) → march_tables leap 12 ≡ true
unfolding march_tables march_table day_of_year months_since_january days_in_month
march_tables-year true = refl
march_tables-year false = refl

day_of_year-day :
    (m d : ℕ)
    → 1 ≤ m
    → m ≤ 12
    → 1 ≤ d
    → d ≤ 31
    → day_of_year m d ≡ day_of_year m 1 + (d - 1) × day_of_year m 1 ≤ 400
unfolding day_of_year
day_of_year-day m d h h' k k' = ground arith

early_month :
    (leap : Bool) (n : ℕ)
    → n < 2
    → march_table leap n ≡ true
    → day_of_year (n + 1) 1 ≡ months_since_january leap n + 306
unfolding march_table
early_month leap n h e = ground arith

late_month :
    (leap : Bool) (n : ℕ)
    → 2 ≤ n
    → march_table leap n ≡ true
    → day_of_year (n + 1) 1 + 59 + (if leap then 1 else 0) ≡ months_since_january leap n
unfolding march_table
late_month leap n h e = ground arith

add-pos : (a b : ℕ) → pos a +ℤ pos b ≡ pos (a + b)
unfolding ◌+ℤ◌
add-pos a b = ground arith

sub-pos : (a b : ℕ) → b ≤ a → pos a -ℤ pos b ≡ pos (a - b)
unfolding ◌-ℤ◌
sub-pos a b h = ground arith

mul-pos : (a b : ℕ) → pos a *ℤ pos b ≡ pos (a * b)
unfolding ◌*ℤ◌
mul-pos a b =
    let left : a * 0 + 0 * b ≡ 0 = omega arith in
    let sum : a * b + 0 ≡ a * b = omega arith in rw (left, sum) (ground arith)

-- The days of the March years before a year that does not precede the era's first, and a day of it.
abbrev era_days : ℤ → ℕ → ℤ
era_days y doy =
    era_of y *ℤ pos 146097
    +ℤ pos (day_of_era (cast_u32 (y -ℤ era_of y *ℤ pos 400)) doy)
    -ℤ pos 719468

era_days-pos :
    (y doy : ℕ)
    → 1969 ≤ y
    → y ≤ 65535
    → doy ≤ 500
    → 719468 ≤ 365 * y + leap_days y + doy
    → era_days (pos y) doy ≡ pos (365 * y + leap_days y + doy - 719468)
unfolding era_of day_of_era ◌/ℤ◌
era_days-pos y doy h k l m =
    let cycle : y / 400 * 400 ≤ y = omega arith in
    let rest : (y - y / 400 * 400) % 2 ^ 32 ≡ y % 400 = omega arith in
    let small : (y % 400 * 365 + y % 400 / 4 + 2 ^ 32 - y % 400 / 100 + doy) % 2 ^ 32
        ≡ y % 400 * 365 + y % 400 / 4 - y % 400 / 100 + doy =
      omega arith in
    rw
      (
        mul-pos (y / 400) 400,
        sub-pos y (y / 400 * 400) cycle,
        rest,
        small,
        mul-pos (y / 400) 146097,
        add-pos,
        sub-pos (y / 400 * 146097 + (y % 400 * 365 + y % 400 / 4 - y % 400 / 100 + doy)) 719468
            (omega (arith, m, era_closed y)),
      )
      (ap pos (omega (arith, era_closed y)))

-- A date from 1970 on whose fields are in range.
pub record IsDate (ts : ParsedTimestamp) : Type 0 where
  pub year : (1970 ≤ ts.year) × (ts.year ≤ 65535)
  pub valid : validate_ranges ts ≡ true

record InRange (month day hour minute second millis : ℕ) : Type 0 where
  month_in : (1 ≤ month) × (month ≤ 12)
  day_in : (1 ≤ day) × (day ≤ 31)
  hour_in : hour ≤ 23
  minute_in : minute ≤ 59
  second_in : second ≤ 59
  millis_in : millis ≤ 999

valid-InRange :
    (ts : ParsedTimestamp)
    → validate_ranges ts ≡ true
    → InRange ts.month ts.day ts.hour ts.minute ts.second ts.millis
unfolding validate_ranges
valid-InRange ts h = ground arith

module _ (y n d : ℕ) (leap : Bool) (from_1970 : 1970 ≤ y) (first : 1 ≤ d) where
  early_days :
      n < 2
      → march_table leap n ≡ true
      → 365 * (y - 1) + leap_days (y - 1) + (day_of_year (n + 1) 1 + (d - 1))
        ≡ years_since_1970 (y - 1970) + months_since_january leap n + (d - 1) + 719468
  early_days h e = omega (arith, years_before y from_1970, early_month leap n h e)

  late_days :
      is_leap y ≡ leap
      → 2 ≤ n
      → march_table leap n ≡ true
      → 365 * y + leap_days y + (day_of_year (n + 1) 1 + (d - 1))
        ≡ years_since_1970 (y - 1970) + months_since_january leap n + (d - 1) + 719468
  late_days l h e = omega (
    arith,
    years_before y from_1970,
    leap_days_before y from_1970 ∙ ap (λ b. leap_days (y - 1) + (if b then 1 else 0)) l,
    late_month leap n h e,
  )

days_from_civil-calendar :
    (ts : ParsedTimestamp) → IsDate ts → days_from_civil ts ≡ pos (calendar_days ts)
unfolding days_from_civil calendar_days march_year
days_from_civil-calendar ts v =
    let r = valid-InRange ts v.valid in
    let day = day_of_year-day ts.month ts.day r.month_in.0 r.month_in.1 r.day_in.0 r.day_in.1 in
    let month : ts.month ≡ ts.month - 1 + 1 = omega (arith, r.month_in) in
    let first = ap (λ m. day_of_year m 1) month in
    let table =
      one_of (is_leap ts.year) (ts.month - 1) 12 (omega (arith, r.month_in))
        (march_tables-year (is_leap ts.year)) in
    elim (Bool-cases (leb ts.month 2)) [
      | inl e ↦
          let early =
            early_days ts.year (ts.month - 1) ts.day (is_leap ts.year) v.year.0 r.day_in.0
              (ground (arith, r.month_in)) table in
          rw (e, sub-pos ts.year 1 (omega (arith, v.year)))
            (era_days-pos (ts.year - 1) (day_of_year ts.month ts.day) (omega (arith, v.year))
                (omega (arith, v.year)) (omega (arith, day, r.day_in))
                (omega (arith, day, first, early))
              ∙ ap pos (omega (arith, day, first, early)))
      | inr e ↦
          let late =
            late_days ts.year (ts.month - 1) ts.day (is_leap ts.year) v.year.0 r.day_in.0 refl
              (ground (arith, r.month_in)) table in
          rw e (
            era_days-pos ts.year (day_of_year ts.month ts.day) (omega (arith, v.year)) v.year.1
              (omega (arith, day, r.day_in)) (omega (arith, day, first, late))
            ∙ ap pos (omega (arith, day, first, late)))
    ]

calendar_days-le : (ts : ParsedTimestamp) → IsDate ts → calendar_days ts ≤ 30000000
unfolding calendar_days
calendar_days-le ts v =
    let r = valid-InRange ts v.valid in
    omega (
      arith,
      v.year,
      r.month_in,
      r.day_in,
      years_before ts.year v.year.0,
      months_since_january-le (is_leap ts.year) (ts.month - 1),
    )

-- From 1970 on, for any date whose fields are in range, the milliseconds are those of the days
-- that the calendar counts, by the lengths of the years since 1970 and of the months before the
-- date, and of the time of day.
pub to_epoch_ms-calendar :
    (ts : ParsedTimestamp)
    → IsDate ts
    → to_epoch_ms ts
      ≡ calendar_days ts * 86400000
        + ts.hour * 3600000
        + ts.minute * 60000
        + ts.second * 1000
        + ts.millis
unfolding to_epoch_ms
to_epoch_ms-calendar ts v =
    let r = valid-InRange ts v.valid in
    rw (days_from_civil-calendar ts v)
      (omega (arith, calendar_days-le ts v, r.hour_in, r.minute_in, r.second_in, r.millis_in))
