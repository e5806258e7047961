-- ===== src/Types/Fixed.antt =====
-- include/nexusfix/types/field_types.hpp: prices and quantities in fixed point, and timestamps. The
-- text of a number is read byte by byte; a 64-bit overflow would be undefined, so the intermediate
-- values are not wrapped: they stay in range, whatever the text.
pub mod Bounds
pub mod Decimal
use nexus_fix.Base.{
  ℕ, ◌+◌, ◌-◌, ◌*◌, ◌/◌, ◌^◌, Bool, true, false, not, ◌||◌, List, [], ◌∷◌, Option, none, some,
  Bytes, ltb, leb, ◌==◌, if◌then◌else◌, length,
}
use nexus_fix.Base.Words.{ℤ, pos, negsuc, max_i64, negate, ◌+ℤ◌, ◌-ℤ◌, ◌/ℤ◌}

pub record FixedPrice : Type 0 where
  pub raw : ℤ

pub record Qty : Type 0 where
  pub raw : ℤ

pub record Timestamp : Type 0 where
  pub nanos : ℤ

-- The variables of the loop of `from_string`.
pub record Scan : Type 0 where
  pub integer_part : ℕ
  pub fractional_part : ℕ
  pub fractional_digits : ℕ
  pub in_fraction : Bool

-- Both types are read the same way, with `places` decimal places.
module _ (places : ℕ) where
  abbrev pub scale : ℕ
  scale = 10 ^ places

  -- The largest whole number that leaves room for the decimal places.
  abbrev pub largest : ℕ
  largest = (max_i64 - (scale - 1)) / scale

  -- A round at a digit; a round that breaks off the loop is `none`.
  unfoldable pub digit_round : Scan → ℕ → Option Scan
  digit_round s digit =
      if s.in_fraction
      then (if ltb s.fractional_digits places
          then some (record s {
            fractional_part = s.fractional_part * 10 + digit;
            fractional_digits = s.fractional_digits + 1;
          })
          else some s)
      else if ltb ((largest - digit) / 10) s.integer_part
      then none
      else some (record s { integer_part = s.integer_part * 10 + digit })

  unfoldable pub scan_round : Scan → ℕ → Option Scan
  scan_round s c =
      if c == b'.'
      then some (record s { in_fraction = true })
      else if ltb c b'0' || ltb b'9' c
      then none
      else digit_round s (c - b'0')

  unfoldable pub scan : Bytes → Scan → Scan
  scan [] s = s
  scan (c ∷ sv) s = elim (scan_round s c) [ none ↦ s | some s' ↦ scan sv s' ]

  abbrev pub scan_start : Scan
  scan_start = record {
    integer_part = 0;
    fractional_part = 0;
    fractional_digits = 0;
    in_fraction = false;
  }

  -- The digits read, scaled by the power of ten that the table has for their number.
  unfoldable pub scan_result : Scan → ℕ
  scan_result s = s.integer_part * scale + s.fractional_part * 10 ^ (places - s.fractional_digits)

  unfoldable pub from_string : Bytes → ℤ
  from_string [] = pos 0
  from_string (c ∷ sv) =
      if c == b'-'
      then negate (scan_result (scan sv scan_start))
      else pos (scan_result (scan (c ∷ sv) scan_start))

abbrev pub price_from_string : Bytes → FixedPrice
price_from_string sv = record { raw = from_string 8 sv }

abbrev pub qty_from_string : Bytes → Qty
qty_from_string sv = record { raw = from_string 4 sv }
