-- ===== src/Parser/Timestamp.antt =====
-- include/nexusfix/parser/timestamp_parser.hpp: YYYYMMDD-HH:MM:SS.mmm, read byte by byte or with one
-- register of 32 bytes, and the milliseconds since 1970. The vector instructions are a parameter: their
-- laws say what each does to the bytes of its registers.
pub mod Lanes
pub mod Agree
pub mod Printed
pub mod Exact
pub mod Calendar
pub mod Epoch
use Prim.Native.Nat.{bit_and, bit_or}
use nexus_fix.Base.{
  ℕ, zero, suc, ◌+◌, ◌-◌, ◌*◌, ◌/◌, ◌%◌, ◌^◌, ◌≤◌, ◌≡◌, Bool, true, false, not, ◌&&◌, ◌||◌, List,
  [], ◌∷◌, map, Option, none, some, ltb, leb, ◌==◌, if◌then◌else◌, Bytes, length, take, get_or, all,
  replicate,
}
use nexus_fix.Base.Words.{
  ℤ, pos, negsuc, pos_part, ◌+ℤ◌, ◌-ℤ◌, ◌*ℤ◌, ◌/ℤ◌, wrap32, wrap64, cast_u32, cast_size,
}
use nexus_fix.Parser.FieldView.{is_digit}
use nexus_fix.Parser.Frame.{at}
use nexus_fix.Parser.Vector.{mask_of}

pub record ParsedTimestamp : Type 0 where
  pub year : ℕ
  pub month : ℕ
  pub day : ℕ
  pub hour : ℕ
  pub minute : ℕ
  pub second : ℕ
  pub millis : ℕ

abbrev pub timestamp_length : ℕ
timestamp_length = 21

unfoldable pub validate_separators : Bytes → Bool
validate_separators buf =
    at buf 8 == b'-' && (at buf 11 == b':' && (at buf 14 == b':' && at buf 17 == b'.'))

abbrev pub digit_positions : List ℕ
digit_positions = 0 ∷ 1 ∷ 2 ∷ 3 ∷ 4 ∷ 5 ∷ 6 ∷ 7 ∷ 9 ∷ 10 ∷ 12 ∷ 13 ∷ 15 ∷ 16 ∷ 18 ∷ 19 ∷ 20 ∷ []

unfoldable pub validate_ranges : ParsedTimestamp → Bool
validate_ranges ts =
    leb 1 ts.month
    && (leb ts.month 12
        && (leb 1 ts.day
            && (leb ts.day 31
                && (leb ts.hour 23
                    && (leb ts.minute 59 && (leb ts.second 59 && leb ts.millis 999))))))

-- The numbers that the digits make, `d i` being the digit at position `i`.
abbrev pub assemble : (ℕ → ℕ) → ParsedTimestamp
assemble d = record {
  year = d 0 * 1000 + d 1 * 100 + d 2 * 10 + d 3;
  month = d 4 * 10 + d 5;
  day = d 6 * 10 + d 7;
  hour = d 9 * 10 + d 10;
  minute = d 12 * 10 + d 13;
  second = d 15 * 10 + d 16;
  millis = d 18 * 100 + d 19 * 10 + d 20;
}

abbrev pub in_range : ParsedTimestamp → Option ParsedTimestamp
in_range ts = if not (validate_ranges ts) then none else some ts

unfoldable pub parse_timestamp_scalar : Bytes → Option ParsedTimestamp
parse_timestamp_scalar input =
    if ltb (length input) timestamp_length
    then none
    else if not (validate_separators input)
    then none
    else if not (all (λ p. is_digit (at input p)) digit_positions)
    then none
    else in_range (assemble (λ i. at input i - b'0'))

-- Operations on the bytes of a register: subtraction wraps, and the comparison is of signed bytes.
abbrev pub sub_byte : ℕ → ℕ → ℕ
sub_byte x y = (x + 256 - y) % 256

abbrev pub greater_byte : ℕ → ℕ → ℕ
greater_byte x y = if ltb ((y + 128) % 256) ((x + 128) % 256) then 255 else 0

abbrev pub zip_bytes : (ℕ → ℕ → ℕ) → Bytes → Bytes → Bytes
zip_bytes f [] ys = []
zip_bytes f (x ∷ xs) [] = []
zip_bytes f (x ∷ xs) (y ∷ ys) = f x y ∷ zip_bytes f xs ys

abbrev pub top_bits : Bytes → List Bool
top_bits bytes = map (λ x. leb 128 x) bytes

pub record Avx2 : Type 1 where
  pub Vector : Type 0
  pub load : Bytes → Vector
  pub broadcast : ℕ → Vector
  pub sub : Vector → Vector → Vector
  pub greater : Vector → Vector → Vector
  pub movemask : Vector → ℕ
  pub store : Vector → Bytes
  pub store-load : (bytes : Bytes) → 32 ≤ length bytes → store (load bytes) ≡ take 32 bytes
  pub store-broadcast : (c : ℕ) → store (broadcast c) ≡ replicate 32 c
  pub store-sub : (v w : Vector) → store (sub v w) ≡ zip_bytes sub_byte (store v) (store w)
  pub store-greater :
      (v w : Vector) → store (greater v w) ≡ zip_bytes greater_byte (store v) (store w)
  pub movemask_lem : (v : Vector) → movemask v ≡ mask_of (top_bits (store v))

abbrev pub digit_mask : ℕ
digit_mask = 0x001DB6FF

module _ (avx2 : Avx2) where
  unfoldable pub parse_timestamp_simd : Bytes → Option ParsedTimestamp
  parse_timestamp_simd input =
      let digits = avx2.sub (avx2.load input) (avx2.broadcast b'0') in
      let gt_nine = avx2.greater digits (avx2.broadcast 9) in
      let over_nine_bits = avx2.movemask gt_nine in
      let negative_bits = avx2.movemask digits in
      let dval = avx2.store digits in
      if ltb (length input) 32
      then parse_timestamp_scalar input
      else if not (validate_separators input)
      then none
      else if not (bit_and (bit_or over_nine_bits negative_bits) digit_mask == 0)
      then none
      else in_range (assemble (λ i. get_or dval i 0))

-- `parse_timestamp`, in a build with the instructions and in one without.
unfoldable pub parse_timestamp : Option Avx2 → Bytes → Option ParsedTimestamp
parse_timestamp none input = parse_timestamp_scalar input
parse_timestamp (some avx2) input = parse_timestamp_simd avx2 input

-- The year that begins in March, and its era of 400 years.
unfoldable pub march_year : ParsedTimestamp → ℤ
march_year ts = if leb ts.month 2 then pos ts.year -ℤ pos 1 else pos ts.year

unfoldable pub era_of : ℤ → ℤ
era_of (pos n) = pos n /ℤ 400
era_of (negsuc n) = (negsuc n -ℤ pos 399) /ℤ 400

-- Days in the March year; all is done in `unsigned`.
unfoldable pub day_of_year : ℕ → ℕ → ℕ
day_of_year m d =
    let shifted = wrap32 (m + (if ltb 2 m then 2 ^ 32 - 3 else 9)) in
    wrap32 (wrap32 (153 * shifted + 2) / 5 + d + 2 ^ 32 - 1)

unfoldable pub day_of_era : ℕ → ℕ → ℕ
day_of_era yoe doy = wrap32 (yoe * 365 + yoe / 4 + 2 ^ 32 - yoe / 100 + doy)

unfoldable pub days_from_civil : ParsedTimestamp → ℤ
days_from_civil ts =
    let y = march_year ts in
    let era = era_of y in
    let yoe = cast_u32 (y -ℤ era *ℤ pos 400) in
    let doe = day_of_era yoe (day_of_year ts.month ts.day) in
    era *ℤ pos 146097 +ℤ pos doe -ℤ pos 719468

unfoldable pub to_epoch_ms : ParsedTimestamp → ℕ
to_epoch_ms ts =
    let whole_days = wrap64 (cast_size (days_from_civil ts) * 86400000) in
    let with_hours = wrap64 (whole_days + ts.hour * 3600000) in
    let with_minutes = wrap64 (with_hours + ts.minute * 60000) in
    let with_seconds = wrap64 (with_minutes + ts.second * 1000) in wrap64 (with_seconds + ts.millis)
