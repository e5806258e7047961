-- ===== src/Parser/FieldView.antt =====
-- include/nexusfix/parser/field_view.hpp: a field's value as a number, a flag or a character, and the
-- iterator over the fields of a buffer.
use nexus_fix.Base.{
  ℕ, ◌+◌, ◌-◌, ◌*◌, ◌/◌, Bool, false, not, ◌||◌, [], ◌∷◌, Option, none, some, ltb, ◌==◌,
  if◌then◌else◌, Bytes, length, is_empty,
}
use nexus_fix.Base.Words.{ℤ, pos, negate, max_int, max_i64, max_u64}
use nexus_fix.Types.{
  ParseErrorCode, no_error, invalid_tag_number, invalid_field_format, unterminated_field, soh,
  equals,
}

pub record FieldView : Type 0 where
  pub tag : ℕ
  pub value : Bytes

abbrev pub no_field : FieldView
no_field = record { tag = 0; value = [] }

abbrev pub is_digit : ℕ → Bool
is_digit c = not (ltb c b'0' || ltb b'9' c)

-- The loops that read a decimal number reject a byte that is no digit, and a number above `max`.
unfoldable pub digits_loop : ℕ → ℕ → Bytes → Option ℕ
digits_loop max result [] = some result
digits_loop max result (c ∷ cs) =
    if is_digit c
    then (if ltb ((max - (c - b'0')) / 10) result
        then none
        else digits_loop max (result * 10 + (c - b'0')) cs)
    else none

unfoldable pub as_int : Bytes → Option ℤ
unfolding digits_loop
as_int [] = none
as_int (c ∷ cs) =
    if c == b'-'
    then elim (digits_loop max_i64 0 cs) [ none ↦ none | some n ↦ some (negate n) ]
    else elim (digits_loop max_i64 0 (c ∷ cs)) [ none ↦ none | some n ↦ some (pos n) ]

unfoldable pub as_uint : Bytes → Option ℕ
unfolding digits_loop
as_uint [] = none
as_uint (c ∷ cs) = digits_loop max_u64 0 (c ∷ cs)

unfoldable pub as_char : Bytes → ℕ
as_char [] = 0
as_char (c ∷ cs) = c

unfoldable pub as_bool : Bytes → Bool
as_bool [] = false
as_bool (c ∷ cs) = c == b'Y'

-- `FieldIterator`: `rest` is the buffer from `pos_` on.
pub record FieldIterator : Type 0 where
  pub size : ℕ
  pub rest : Bytes
  pub last_error : ParseErrorCode

abbrev pub iterate : Bytes → FieldIterator
iterate bytes = record { size = length bytes; rest = bytes; last_error = no_error }

abbrev pub position : FieldIterator → ℕ
position it = it.size - length it.rest

abbrev pub has_next : FieldIterator → Bool
has_next it = not (is_empty it.rest)

-- Where the loop over the tag's digits stops, with the bytes from there on.
pub data TagScan : Type 0 where
  tag_read : ℕ → Bytes → TagScan
  tag_refused : ParseErrorCode → Bytes → TagScan

unfoldable pub scan_tag : ℕ → Bytes → TagScan
scan_tag tag [] = tag_refused invalid_field_format []
scan_tag tag (c ∷ cs) =
    if c == equals
    then tag_read tag cs
    else if not (is_digit c) || ltb ((max_int - (c - b'0')) / 10) tag
    then tag_refused invalid_tag_number (c ∷ cs)
    else scan_tag (tag * 10 + (c - b'0')) cs

-- The value up to the next SOH, and the bytes behind that SOH.
unfoldable pub scan_value : Bytes → Option (Bytes × Bytes)
scan_value [] = none
scan_value (c ∷ cs) =
    if c == soh
    then some ([], cs)
    else elim (scan_value cs) [ none ↦ none | some (value, rest) ↦ some (c ∷ value, rest) ]

unfoldable pub next_at : FieldIterator → Bytes → FieldView × FieldIterator
unfolding scan_tag scan_value
next_at it [] = (no_field, record it { last_error = no_error })
next_at it (c ∷ cs) = elim (scan_tag 0 (c ∷ cs)) [
  | tag_refused code rest ↦ (no_field, record it { rest = rest; last_error = code })
  | tag_read tag rest ↦ elim (scan_value rest) [
    | none ↦ (no_field, record it { rest = []; last_error = unterminated_field })
    | some (value, behind) ↦
        (record { tag = tag; value = value }, record it { rest = behind; last_error = no_error })
  ]
]

abbrev pub next : FieldIterator → FieldView × FieldIterator
next it = next_at it it.rest
