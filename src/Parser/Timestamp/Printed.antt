-- ===== src/Parser/Timestamp/Printed.antt =====
-- The text that parse_timestamp_scalar of include/nexusfix/parser/timestamp_parser.hpp reads.
use nexus_fix.Base.{
  ℕ, ◌+◌, ◌-◌, ◌*◌, ◌/◌, ◌%◌, ◌≤◌, ◌≡◌, refl, true, false, [], ◌∷◌, ◌++◌, some, arith, ltb, Bytes,
  length, all,
}
use nexus_fix.Parser.FieldView.{is_digit}
use nexus_fix.Parser.Frame.{at}
use nexus_fix.Parser.Timestamp.{
  ParsedTimestamp, timestamp_length, validate_separators, digit_positions, validate_ranges,
  assemble, parse_timestamp_scalar,
}

abbrev pub digit : ℕ → ℕ
digit n = b'0' + n % 10

-- A timestamp as a text of 21 bytes, YYYYMMDD-HH:MM:SS.mmm.
abbrev pub timestamp_text : ParsedTimestamp → Bytes
timestamp_text ts =
    digit (ts.year / 1000)
    ∷ digit (ts.year / 100)
    ∷ digit (ts.year / 10)
    ∷ digit ts.year
    ∷ digit (ts.month / 10)
    ∷ digit ts.month
    ∷ digit (ts.day / 10)
    ∷ digit ts.day
    ∷ b'-'
    ∷ digit (ts.hour / 10)
    ∷ digit ts.hour
    ∷ b':'
    ∷ digit (ts.minute / 10)
    ∷ digit ts.minute
    ∷ b':'
    ∷ digit (ts.second / 10)
    ∷ digit ts.second
    ∷ b'.'
    ∷ digit (ts.millis / 100)
    ∷ digit (ts.millis / 10)
    ∷ digit ts.millis
    ∷ []

digit-digit : (n : ℕ) → is_digit (digit n) ≡ true
digit-digit n = ground arith

-- The numbers that the fields of a timestamp can be.
pub record IsTimestamp (ts : ParsedTimestamp) : Type 0 where
  pub year : ts.year ≤ 9999
  pub month : (1 ≤ ts.month) × (ts.month ≤ 12)
  pub day : (1 ≤ ts.day) × (ts.day ≤ 31)
  pub hour : ts.hour ≤ 23
  pub minute : ts.minute ≤ 59
  pub second : ts.second ≤ 59
  pub millis : ts.millis ≤ 999

two_digits : (n : ℕ) → n ≤ 99 → (digit (n / 10) - b'0') * 10 + (digit n - b'0') ≡ n
two_digits n h = omega arith

three_digits :
    (n : ℕ)
    → n ≤ 999
    → (digit (n / 100) - b'0') * 100 + (digit (n / 10) - b'0') * 10 + (digit n - b'0') ≡ n
three_digits n h = omega arith

four_digits :
    (n : ℕ)
    → n ≤ 9999
    → (digit (n / 1000) - b'0') * 1000
        + (digit (n / 100) - b'0') * 100
        + (digit (n / 10) - b'0') * 10
        + (digit n - b'0')
      ≡ n
four_digits n h = omega arith

assembled :
    (ts : ParsedTimestamp) (rest : Bytes)
    → IsTimestamp ts
    → assemble (λ i. at (timestamp_text ts ++ rest) i - b'0') ≡ ts
assembled ts rest v = λ i. record {
  year = four_digits ts.year v.year i;
  month = two_digits ts.month (omega (arith, v.month)) i;
  day = two_digits ts.day (omega (arith, v.day)) i;
  hour = two_digits ts.hour (omega (arith, v.hour)) i;
  minute = two_digits ts.minute (omega (arith, v.minute)) i;
  second = two_digits ts.second (omega (arith, v.second)) i;
  millis = three_digits ts.millis v.millis i;
}

ranges : (ts : ParsedTimestamp) → IsTimestamp ts → validate_ranges ts ≡ true
unfolding validate_ranges
ranges ts v = ground arith

digits :
    (ts : ParsedTimestamp) (rest : Bytes)
    → all (λ p. is_digit (at (timestamp_text ts ++ rest) p)) digit_positions ≡ true
unfolding all
digits ts rest = simp (digit-digit)

pub parse_timestamp_scalar-text :
    (ts : ParsedTimestamp) (rest : Bytes)
    → IsTimestamp ts
    → parse_timestamp_scalar (timestamp_text ts ++ rest) ≡ some ts
unfolding parse_timestamp_scalar validate_separators all
parse_timestamp_scalar-text ts rest v =
    let long : ltb (length (timestamp_text ts ++ rest)) timestamp_length ≡ false = ground arith in
    rw (long, digits ts rest, assembled ts rest v, ranges ts v) refl
