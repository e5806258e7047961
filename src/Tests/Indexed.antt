-- ===== src/Tests/Indexed.antt =====
-- The indexed parser of include/nexusfix/parser/runtime_parser.hpp at work.
use nexus_fix.Base.{ℕ, ◌≡◌, refl, true, false, List, [], ◌∷◌, ◌++◌, Bytes, codes, if◌then◌else◌}
use mathlib.Core.List.{reverse}
use nexus_fix.Types.{
  ParseResult, duplicate_tag, ok, err, soh, empty_header, byte_sum, calculate_checksum,
  format_checksum,
}
use nexus_fix.Parser.FieldView.{
  FieldView, no_field, iterate, as_int, as_uint, as_char, as_bool, scan_tag, scan_value, next_at,
}
use nexus_fix.Parser.FieldView
use nexus_fix.Parser.FieldTable.{set_entry, set_overflow, set_field, find_overflow, get, new_table}
use nexus_fix.Parser.FieldTable.Lookup.{in_array, last_from}
use nexus_fix.Parser.Header.{
  header_bit, has_bit, mark_seen, take_field, header_round, header_loop, check_required,
  parse_header,
}
use nexus_fix.Parser.Frame.{
  trailer_at, find_checksum, validate_checksum, find_soh, find_body_start, find_body_end,
  validate_body_length,
}
use nexus_fix.Parser.Indexed.{
  IndexedParser, parse_indexed, read_field, index_field, index_loop, is_group_member_tag,
  track_group, max_tag, max_overflow,
}
use nexus_fix.Parser.Indexed.Fields.{Reads, repeats}
use nexus_fix.Parser.Indexed.Found.{parse_indexed-get, parse_indexed-repeats}

-- The fields of a message, each with its SOH.
abbrev message : List Bytes → Bytes
message [] = []
message (f ∷ fs) = f ++ soh ∷ message fs

-- The text and a field with a large tag stand twice in it.
abbrev doubled : Bytes
doubled = message (
    codes "8=FIX.4.4"
    ∷ codes "9=42"
    ∷ codes "35=W"
    ∷ codes "49=A"
    ∷ codes "56=B"
    ∷ codes "34=1"
    ∷ codes "58=c"
    ∷ codes "600=a"
    ∷ codes "58=d"
    ∷ codes "600=b"
    ∷ codes "10=048"
    ∷ [])

-- Two entries of a repeating group.
abbrev grouped : Bytes
grouped = message (
    codes "8=FIX.4.4"
    ∷ codes "9=38"
    ∷ codes "35=W"
    ∷ codes "49=A"
    ∷ codes "56=B"
    ∷ codes "34=1"
    ∷ codes "268=2"
    ∷ codes "269=0"
    ∷ codes "269=1"
    ∷ codes "10=220"
    ∷ [])

abbrev repeated : Bytes
repeated = message (
    codes "8=FIX.4.4"
    ∷ codes "9=30"
    ∷ codes "35=W"
    ∷ codes "49=A"
    ∷ codes "56=B"
    ∷ codes "34=1"
    ∷ codes "58=c"
    ∷ codes "58=d"
    ∷ codes "10=194"
    ∷ [])

abbrev parsed : ParseResult IndexedParser → IndexedParser
parsed (ok p) = p
parsed (err code tag offset) = record {
  raw = [];
  header = empty_header;
  field_table = new_table max_tag max_overflow false;
}

doubled_parses : parse_indexed false doubled ≡ ok (parsed (parse_indexed false doubled))
unfolding byte_sum calculate_checksum format_checksum FieldView.digits_loop as_int as_uint as_char
    as_bool scan_tag scan_value next_at header_bit has_bit mark_seen take_field header_round
    header_loop check_required parse_header trailer_at find_checksum validate_checksum find_soh
    find_body_start find_body_end validate_body_length set_entry set_overflow set_field
    is_group_member_tag track_group read_field index_field index_loop parse_indexed
doubled_parses = refl

parse_indexed-get_example :
    (fs : List FieldView) × Reads (iterate doubled) fs
    × ((tag : ℕ)
        → get max_tag max_overflow false (parsed (parse_indexed false doubled)).field_table tag ≡ (
            if in_array max_tag max_overflow false tag
            then last_from no_field tag fs
            else last_from no_field tag (reverse fs)))
parse_indexed-get_example =
    parse_indexed-get false doubled (parsed (parse_indexed false doubled)) doubled_parses

-- The last text is found, and the first of the fields with the large tag.
doubled_found :
    (get max_tag max_overflow false (parsed (parse_indexed false doubled)).field_table 58
      ≡ record { tag = 58; value = codes "d" })
    × (get max_tag max_overflow false (parsed (parse_indexed false doubled)).field_table 600
        ≡ record { tag = 600; value = codes "a" })
unfolding byte_sum calculate_checksum format_checksum FieldView.digits_loop as_int as_uint as_char
    as_bool scan_tag scan_value next_at header_bit has_bit mark_seen take_field header_round
    header_loop check_required parse_header trailer_at find_checksum validate_checksum find_soh
    find_body_start find_body_end validate_body_length set_entry set_overflow set_field
    is_group_member_tag track_group read_field index_field index_loop parse_indexed get
    find_overflow
doubled_found = (refl, refl)

grouped_parses : parse_indexed true grouped ≡ ok (parsed (parse_indexed true grouped))
unfolding byte_sum calculate_checksum format_checksum FieldView.digits_loop as_int as_uint as_char
    as_bool scan_tag scan_value next_at header_bit has_bit mark_seen take_field header_round
    header_loop check_required parse_header trailer_at find_checksum validate_checksum find_soh
    find_body_start find_body_end validate_body_length set_entry set_overflow set_field
    is_group_member_tag track_group read_field index_field index_loop parse_indexed
grouped_parses = refl

parse_indexed-repeats_example :
    (fs : List FieldView) × Reads (iterate grouped) fs × (repeats [] fs ≡ false)
parse_indexed-repeats_example =
    parse_indexed-repeats grouped (parsed (parse_indexed true grouped)) grouped_parses

repeated_refused : parse_indexed true repeated ≡ err duplicate_tag 58 0
unfolding byte_sum calculate_checksum format_checksum FieldView.digits_loop as_int as_uint as_char
    as_bool scan_tag scan_value next_at header_bit has_bit mark_seen take_field header_round
    header_loop check_required parse_header trailer_at find_checksum validate_checksum find_soh
    find_body_start find_body_end validate_body_length set_entry set_overflow set_field
    is_group_member_tag track_group read_field index_field index_loop parse_indexed
repeated_refused = refl
