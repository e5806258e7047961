-- ===== src/Parser/Indexed.antt =====
-- include/nexusfix/parser/runtime_parser.hpp, IndexedParserImpl, with the tags of repeating groups of
-- include/nexusfix/types/tag.hpp.
pub mod Fields
pub mod Found
use nexus_fix.Base.{
  ℕ, zero, suc, Bool, true, false, not, ◌&&◌, ◌||◌, Bytes, [], ◌∷◌, ◌==◌, if◌then◌else◌, length,
}
use nexus_fix.Types.{
  ParseErrorCode, no_error, invalid_field_format, ParseResult, ok, err, ◌>>=◌, ◌>>◌, MessageHeader,
}
use nexus_fix.Types.Tag
use nexus_fix.Parser.FieldView.{FieldView, FieldIterator, iterate, next, has_next, position}
use nexus_fix.Parser.FieldTable
use nexus_fix.Parser.FieldTable.{FieldTable}
use nexus_fix.Parser.Header.{parse_header}
use nexus_fix.Parser.Frame.{validate_checksum, validate_body_length}

abbrev pub max_tag : ℕ
max_tag = 512

abbrev pub max_overflow : ℕ
max_overflow = 8

abbrev pub is_group_count_tag : ℕ → Bool
is_group_count_tag tag = tag == 146 || tag == 267 || tag == 268

unfoldable pub is_group_member_tag : ℕ → ℕ → Bool
is_group_member_tag count_tag tag =
    if count_tag == 146
    then tag == 48 || tag == 55 || tag == 207
    else if count_tag == 267
    then tag == 269
    else if count_tag == 268
    then tag == 55
      || tag == 269
      || tag == 270
      || tag == 271
      || tag == 272
      || tag == 273
      || tag == 276
      || tag == 277
      || tag == 278
      || tag == 279
      || tag == 290
      || tag == 346
    else false

-- The repeating group that the loop is in.
pub record Group : Type 0 where
  pub active_group_count_tag : ℕ
  pub in_group : Bool

abbrev pub no_group : Group
no_group = record { active_group_count_tag = 0; in_group = false }

-- A field that is no member of the group leaves it, and a count enters its own.
unfoldable pub track_group : Group → ℕ → Group
track_group g tag =
    let is_count_tag = is_group_count_tag tag in
    if is_count_tag
    then record { active_group_count_tag = tag; in_group = true }
    else if g.in_group && not (is_group_member_tag g.active_group_count_tag tag)
    then no_group
    else g

abbrev pub may_repeat : Group → ℕ → Bool
may_repeat g tag = g.in_group && is_group_member_tag g.active_group_count_tag tag

-- The field at the iterator; the position of an error is that before the field.
unfoldable pub read_field : FieldIterator → ParseResult (FieldView × FieldIterator)
read_field it =
    let (field, it') = next it in
    if field.tag == 0
    then elim it'.last_error [
      | no_error ↦ err invalid_field_format 0 (position it)
      | code ↦ err code 0 (position it)
    ]
    else ok (field, it')

module _ (strict : Bool) where
  unfoldable pub index_field : Group × FieldTable → FieldView → ParseResult (Group × FieldTable)
  index_field (group, table) field =
      let group' = if strict then track_group group field.tag else group in
      FieldTable.set_field max_tag max_overflow strict table field.tag field.value
        (strict && may_repeat group' field.tag)
      >>= λ table'. ok (group', table')

  -- A round takes at least one byte, so more rounds than bytes are never begun.
  unfoldable pub index_loop :
      ℕ → Group × FieldTable → FieldIterator → ParseResult (Group × FieldTable)
  index_loop zero s it = ok s
  index_loop (suc fuel) s it = if not (has_next it) then ok s else elim (read_field it) [
    | err code tag offset ↦ err code tag offset
    | ok (field, it') ↦ elim (index_field s field) [
      | err code tag offset ↦ err code tag offset
      | ok s' ↦
          let more = index_loop fuel s' it' in if field.tag == Tag.check_sum then ok s' else more
    ]
  ]

  abbrev pub index_fields : Bytes → ParseResult (Group × FieldTable)
  index_fields bytes =
      index_loop (suc (length bytes)) (no_group, FieldTable.new_table max_tag max_overflow strict)
        (iterate bytes)

pub record IndexedParser : Type 0 where
  pub raw : Bytes
  pub header : MessageHeader
  pub field_table : FieldTable

unfoldable pub parse_indexed : Bool → Bytes → ParseResult IndexedParser
parse_indexed strict bytes = do
  (header, body_start) ← parse_header bytes
  validate_body_length bytes header.body_length
  (group, table) ← index_fields strict bytes
  validate_checksum bytes
  ok (record { raw = bytes; header = header; field_table = table })
