-- ===== src/Tests/Timestamps.antt =====
-- The parsers of include/nexusfix/parser/timestamp_parser.hpp on a register that is a list of bytes.
use nexus_fix.Base.{◌≡◌, ◌↔◌, refl, ◌++◌, some, arith, Bytes, codes, take, replicate, all, ◌+◌, ◌*◌}
use nexus_fix.Base.Words.{◌+ℤ◌, ◌-ℤ◌, ◌*ℤ◌, ◌/ℤ◌}
use nexus_fix.Parser.Timestamp.{
  ParsedTimestamp, validate_separators, validate_ranges, parse_timestamp_scalar, sub_byte,
  greater_byte, zip_bytes, top_bits, Avx2, parse_timestamp_simd, parse_timestamp, march_year,
  era_of, day_of_year, day_of_era, days_from_civil, to_epoch_ms,
}
use nexus_fix.Parser.Vector.{mask_of}
use nexus_fix.Parser.Timestamp.Agree.{parse_timestamp-same}
use nexus_fix.Parser.Timestamp.Printed.{timestamp_text, IsTimestamp}
use nexus_fix.Parser.Timestamp.Exact.{parse_timestamp_scalar_iff}
use nexus_fix.Parser.Timestamp.Calendar.{calendar_days}
use nexus_fix.Parser.Timestamp.Epoch.{to_epoch_ms-calendar}

abbrev lanes : Avx2
lanes = record {
  Vector = Bytes;
  load = λ bytes. take 32 bytes;
  broadcast = λ c. replicate 32 c;
  sub = λ v w. zip_bytes sub_byte v w;
  greater = λ v w. zip_bytes greater_byte v w;
  movemask = λ v. mask_of (top_bits v);
  store = λ v. v;
  store-load = λ bytes h. refl;
  store-broadcast = λ c. refl;
  store-sub = λ v w. refl;
  store-greater = λ v w. refl;
  movemask_lem = λ v. refl;
}

abbrev noon : ParsedTimestamp
noon = record {
  year = 2024;
  month = 2;
  day = 29;
  hour = 12;
  minute = 30;
  second = 45;
  millis = 123;
}

abbrev field : Bytes
field = codes "20240229-12:30:45.123|56=TARGET|34=12|"

noon-parsed : parse_timestamp_simd lanes field ≡ some noon
unfolding parse_timestamp_simd validate_separators mask_of validate_ranges
noon-parsed = refl

noon-epoch : to_epoch_ms noon ≡ 1709209845123
unfolding to_epoch_ms days_from_civil march_year era_of day_of_year day_of_era ◌+ℤ◌ ◌-ℤ◌ ◌*ℤ◌ ◌/ℤ◌
noon-epoch = refl

parse_timestamp-same_example : parse_timestamp (some lanes) field ≡ parse_timestamp_scalar field
unfolding all
parse_timestamp-same_example = parse_timestamp-same (some lanes) field refl

parse_timestamp_scalar_iff_example :
    (parse_timestamp_scalar field ≡ some noon)
    ↔ (IsTimestamp noon × (rest : Bytes) × field ≡ timestamp_text noon ++ rest)
parse_timestamp_scalar_iff_example = parse_timestamp_scalar_iff field noon

to_epoch_ms-calendar_example :
    to_epoch_ms noon ≡ calendar_days noon * 86400000 + 12 * 3600000 + 30 * 60000 + 45 * 1000 + 123
unfolding validate_ranges
to_epoch_ms-calendar_example =
    to_epoch_ms-calendar noon (record { year = omega arith; valid = refl })
