-- ===== src/Parser/Message.antt =====
-- include/nexusfix/parser/runtime_parser.hpp, class ParsedMessage, with the scalar scanner of
-- simd_scanner.hpp. A parsed message holds copies of the bytes that the code's views point to.
pub mod Accepted
use nexus_fix.Base.{
  ℕ, zero, suc, ◌+◌, ◌-◌, ◌*◌, ◌/◌, ◌%◌, ◌^◌, ◌≡◌, refl, Bool, true, false, not, ◌&&◌, ◌||◌, List,
  [], ◌∷◌, ◌++◌, Option, none, some, ltb, leb, ◌==◌, if◌then◌else◌, Bytes, length, get_or, take,
  drop, is_empty,
}
use nexus_fix.Base.Words.{ℤ, max_int}
use nexus_fix.Types.{
  ParseErrorCode, unterminated_field, field_count_exceeded, invalid_field_format,
  invalid_tag_number, ParseResult, ok, err, ◌>>=◌, ◌>>◌, soh, equals, MessageHeader,
}
use nexus_fix.Types.Tag
use nexus_fix.Parser.FieldView.{FieldView, no_field, is_digit, as_int, as_char}
use nexus_fix.Parser.Header.{parse_header}
use nexus_fix.Parser.Frame.{at, validate_checksum, validate_body_length}

abbrev pub max_soh_positions : ℕ
max_soh_positions = 256

abbrev pub max_fields : ℕ
max_fields = 128

-- `SohPositions`: the positions are `uint16_t`.
pub record SohPositions : Type 0 where
  pub positions : List ℕ
  pub truncated : Bool

-- The positions of the next `left` SOH bytes; the first byte has index `i`.
unfoldable pub scan_positions : ℕ → Bytes → ℕ → List ℕ
scan_positions left [] i = []
scan_positions left (c ∷ cs) i =
    if c == soh
    then elim left [ zero ↦ [] | suc n ↦ i % 2 ^ 16 ∷ scan_positions n cs (i + 1) ]
    else scan_positions left cs (i + 1)

unfoldable pub has_soh : Bytes → Bool
has_soh [] = false
has_soh (c ∷ cs) = c == soh || has_soh cs

-- `check_truncation`: at capacity, whether an SOH stands behind the last recorded position.
unfoldable pub check_truncation : List ℕ → Bytes → Bool
check_truncation positions bytes =
    if ltb (length positions) max_soh_positions
    then false
    else has_soh (drop (get_or positions (max_soh_positions - 1) 0 + 1) bytes)

unfoldable pub scan_soh : Bytes → SohPositions
unfolding scan_positions has_soh check_truncation
scan_soh bytes =
    let positions = scan_positions max_soh_positions bytes 0 in
    record { positions = positions; truncated = check_truncation positions bytes }

-- `find_equals`: the index of the first '=' in the bytes, the first having index `i`; at the end,
-- the buffer's size.
unfoldable pub find_equals : Bytes → ℕ → ℕ
find_equals [] i = i
find_equals (c ∷ cs) i = if c == equals then i else find_equals cs (i + 1)

-- The digits of a tag, the first of which has index `j`.
unfoldable pub tag_loop : Bytes → ℕ → ℕ → ParseResult ℕ
tag_loop [] tag j = ok tag
tag_loop (c ∷ cs) tag j =
    if not (is_digit c) || ltb ((max_int - (c - b'0')) / 10) tag
    then err invalid_tag_number 0 j
    else tag_loop cs (tag * 10 + (c - b'0')) (j + 1)

abbrev pub slice : Bytes → ℕ → ℕ → Bytes
slice bytes start end = take (end - start) (drop start bytes)

-- The field between two positions.
unfoldable pub parse_field : Bytes → ℕ → ℕ → ParseResult FieldView
parse_field bytes field_start field_end =
    let eq_pos = find_equals (drop field_start bytes) field_start in
    if leb field_end eq_pos
    then err invalid_field_format 0 field_start
    else if eq_pos == field_start
    then err invalid_field_format 0 field_start
    else do
      tag ← tag_loop (slice bytes field_start eq_pos) 0 field_start
      ok (record { tag = tag; value = slice bytes (eq_pos + 1) field_end })

-- The loop over the positions; the list in front holds the fields recorded so far.
unfoldable pub parse_fields : Bytes → List FieldView → ℕ → List ℕ → ParseResult (List FieldView)
parse_fields bytes fields field_start [] = ok fields
parse_fields bytes fields field_start (field_end ∷ positions) =
    elim (parse_field bytes field_start field_end) [
      | err code tag offset ↦ err code tag offset
      | ok field ↦
          if leb max_fields (length fields)
          then err field_count_exceeded field.tag field_start
          else (let more = parse_fields bytes (fields ++ field ∷ []) (field_end + 1) positions in
              if field.tag == Tag.check_sum then ok (fields ++ field ∷ []) else more)
    ]

pub record ParsedMessage : Type 0 where
  pub raw : Bytes
  pub header : MessageHeader
  pub fields : List FieldView

abbrev pub last_byte : Bytes → ℕ
last_byte bytes = at bytes (length bytes - 1)

unfoldable pub parse : Bytes → ParseResult ParsedMessage
parse bytes =
    if not (is_empty bytes) && not (last_byte bytes == soh)
    then err unterminated_field 0 (length bytes - 1)
    else do
      (header, body_start) ← parse_header bytes
      validate_body_length bytes header.body_length
      let soh_positions = scan_soh bytes
      fields ←
          (if soh_positions.truncated
            then err field_count_exceeded 0 0
            else parse_fields bytes [] 0 soh_positions.positions)
      validate_checksum bytes
      ok (record { raw = bytes; header = header; fields = fields })

-- `get_field`: the first field with the tag.
unfoldable pub get_field : List FieldView → ℕ → FieldView
get_field [] tag = no_field
get_field (f ∷ fs) tag = if f.tag == tag then f else get_field fs tag

abbrev pub get_string : ParsedMessage → ℕ → Bytes
get_string m tag = (get_field m.fields tag).value

abbrev pub get_int : ParsedMessage → ℕ → Option ℤ
get_int m tag = as_int (get_string m tag)

abbrev pub get_char : ParsedMessage → ℕ → ℕ
get_char m tag = as_char (get_string m tag)
