-- ===== src/Parser/Timestamp/Calendar.antt =====
-- The days of the Gregorian calendar, by the lengths of its years and months: what to_epoch_ms of
-- include/nexusfix/parser/timestamp_parser.hpp is to count.
use nexus_fix.Base.{
  ℕ, zero, suc, ◌+◌, ◌-◌, ◌*◌, ◌/◌, ◌%◌, ◌≤◌, ◌≡◌, refl, sym, ap, ◌∙◌, inl, inr, Bool, true, false,
  not, ◌&&◌, ◌||◌, arith, ◌==◌, if◌then◌else◌, Bool-cases,
}
use nexus_fix.Parser.Timestamp.{ParsedTimestamp}

unfoldable pub is_leap : ℕ → Bool
is_leap y = y % 4 == 0 && not (y % 100 == 0) || y % 400 == 0

unfoldable pub days_in_year : ℕ → ℕ
days_in_year y = if is_leap y then 366 else 365

-- The days of a month in a leap year, and in another.
unfoldable pub days_in_month : Bool → ℕ → ℕ
days_in_month leap m =
    if m == 2
    then (if leap then 29 else 28)
    else if m == 4 || m == 6 || m == 9 || m == 11
    then 30
    else 31

-- The days of the first years from 1970 on, and of the first months of a year.
unfoldable pub years_since_1970 : ℕ → ℕ
years_since_1970 zero = 0
years_since_1970 (suc n) = years_since_1970 n + days_in_year (1970 + n)

unfoldable pub months_since_january : Bool → ℕ → ℕ
months_since_january leap zero = 0
months_since_january leap (suc n) = months_since_january leap n + days_in_month leap (n + 1)

-- The days from 1970-01-01 to a date.
unfoldable pub calendar_days : ParsedTimestamp → ℕ
calendar_days ts =
    years_since_1970 (ts.year - 1970)
    + months_since_january (is_leap ts.year) (ts.month - 1)
    + (ts.day - 1)

-- The leap days up to a year.
abbrev pub leap_days : ℕ → ℕ
leap_days y = y / 4 + y / 400 - y / 100

leap_days-suc : (y : ℕ) → leap_days (y + 1) ≡ leap_days y + (if is_leap (y + 1) then 1 else 0)
unfolding is_leap
leap_days-suc y = ground arith

leap_year : (y : ℕ) → is_leap (y + 1) ≡ true → leap_days (y + 1) ≡ leap_days y + 1
leap_year y e = leap_days-suc y ∙ rw e refl

common_year : (y : ℕ) → is_leap (y + 1) ≡ false → leap_days (y + 1) ≡ leap_days y
common_year y e = leap_days-suc y ∙ rw e (omega arith)

years_closed : (n : ℕ) → years_since_1970 n + 477 ≡ 365 * n + leap_days (1969 + n)
unfolding years_since_1970 days_in_year
years_closed zero = refl
years_closed (suc n) =
    let y : ℕ = 1969 + n in
    let next : 1970 + n ≡ y + 1 = omega arith in
    let next' : 1969 + suc n ≡ y + 1 = omega arith in
    rw (next, next')
      (elim (Bool-cases (is_leap (y + 1))) [
        | inl e ↦ rw e (omega (arith, years_closed n, leap_year y e))
        | inr e ↦ rw e (omega (arith, years_closed n, common_year y e))
      ])

-- The years up to one, in terms of the leap days.
pub years_before :
    (y : ℕ) → 1970 ≤ y → years_since_1970 (y - 1970) + 719527 ≡ 365 * y + leap_days (y - 1)
years_before y h =
    let base : 1969 + (y - 1970) ≡ y - 1 = omega arith in
    omega (arith, years_closed (y - 1970), ap leap_days base)

pub leap_days_before :
    (y : ℕ) → 1970 ≤ y → leap_days y ≡ leap_days (y - 1) + (if is_leap y then 1 else 0)
leap_days_before y h =
    let same : y - 1 + 1 ≡ y = omega arith in
    ap leap_days (sym same)
    ∙ leap_days-suc (y - 1)
    ∙ ap (λ z. leap_days (y - 1) + (if is_leap z then 1 else 0)) same

days_in_month-le : (leap : Bool) (m : ℕ) → days_in_month leap m ≤ 31
unfolding days_in_month
days_in_month-le true m = ground arith
days_in_month-le false m = ground arith

pub months_since_january-le : (leap : Bool) (n : ℕ) → months_since_january leap n ≤ 31 * n
unfolding months_since_january
months_since_january-le leap zero = omega arith
months_since_january-le leap (suc n) =
    omega (arith, months_since_january-le leap n, days_in_month-le leap (n + 1))
