-- ===== src/Parser/Header.antt =====
-- include/nexusfix/parser/consteval_parser.hpp, `parse_header`: the loop over the header's fields.
pub mod Rounds
use nexus_fix.Base.{
  ℕ, zero, suc, ◌+◌, ◌-◌, ◌%◌, ◌^◌, Bool, true, false, ◌&&◌, ◌||◌, List, [], ◌∷◌, Option, none,
  some, ltb, ◌==◌, if◌then◌else◌, Bytes, length, is_empty,
}
use nexus_fix.Base.Words.{ℤ, negsuc, cast_int}
use nexus_fix.Types.{
  no_error, buffer_too_short, duplicate_tag, invalid_body_length, invalid_field_format,
  missing_required_field, ParseResult, ok, err, ◌>>=◌, MessageHeader, empty_header,
  min_message_size,
}
use nexus_fix.Types.Tag
use nexus_fix.Parser.FieldView.{
  FieldView, FieldIterator, iterate, position, has_next, next, as_int, as_uint, as_char, as_bool,
}

-- The header tags, each of which may stand once; `none` for a body field.
unfoldable pub header_bit : ℕ → Option ℕ
header_bit tag =
    if tag == Tag.begin_string
    then some 0
    else if tag == Tag.body_length
    then some 1
    else if tag == Tag.msg_type
    then some 2
    else if tag == Tag.sender_comp_id
    then some 3
    else if tag == Tag.target_comp_id
    then some 4
    else if tag == Tag.msg_seq_num
    then some 5
    else if tag == Tag.sending_time
    then some 6
    else if tag == Tag.poss_dup_flag
    then some 7
    else if tag == Tag.poss_resend
    then some 8
    else if tag == Tag.orig_sending_time
    then some 9
    else none

-- The variables of the loop. `seen` holds the bits set in `seen_mask`.
pub record HeaderState : Type 0 where
  pub header : MessageHeader
  pub body_start : ℕ
  pub fields_parsed : ℕ
  pub seen : List ℕ

abbrev pub start_state : HeaderState
start_state = record { header = empty_header; body_start = 0; fields_parsed = 0; seen = [] }

unfoldable pub has_bit : ℕ → List ℕ → Bool
has_bit bit [] = false
has_bit bit (b ∷ bs) = b == bit || has_bit bit bs

abbrev count_field : HeaderState → MessageHeader → HeaderState
count_field s h = record s { header = h; fields_parsed = s.fields_parsed + 1 }

-- The check against `seen_mask`.
unfoldable pub mark_seen : HeaderState → ℕ → ParseResult HeaderState
unfolding header_bit has_bit
mark_seen s tag = elim (header_bit tag) [
  | none ↦ ok s
  | some bit ↦
      if has_bit bit s.seen then err duplicate_tag tag 0 else ok (record s { seen = bit ∷ s.seen })
]

-- The switch over the tag; `pos` is the iterator's position behind the field.
unfoldable pub take_field : HeaderState → FieldView → ℕ → ParseResult HeaderState
take_field s f pos =
    if f.tag == Tag.begin_string
    then ok (count_field s (record (s.header) { begin_string = f.value }))
    else if f.tag == Tag.body_length
    then elim (as_int f.value) [
      | none ↦ err invalid_body_length 9 0
      | some n ↦ ok (count_field s (record (s.header) { body_length = cast_int n }))
    ]
    else if f.tag == Tag.msg_type
    then ok (count_field s (record (s.header) { msg_type = as_char f.value }))
    else if f.tag == Tag.sender_comp_id
    then ok (count_field s (record (s.header) { sender_comp_id = f.value }))
    else if f.tag == Tag.target_comp_id
    then ok (count_field s (record (s.header) { target_comp_id = f.value }))
    else if f.tag == Tag.msg_seq_num
    then elim (as_uint f.value) [
      | none ↦ err invalid_field_format 34 0
      | some n ↦ ok (count_field s (record (s.header) { msg_seq_num = n % 2 ^ 32 }))
    ]
    else if f.tag == Tag.sending_time
    then ok (count_field s (record (s.header) { sending_time = f.value }))
    else if f.tag == Tag.poss_dup_flag
    then ok (record s { header = record (s.header) { poss_dup_flag = as_bool f.value } })
    else if f.tag == Tag.poss_resend
    then ok (record s { header = record (s.header) { poss_resend = as_bool f.value } })
    else if f.tag == Tag.orig_sending_time
    then ok (record s { header = record (s.header) { orig_sending_time = f.value } })
    else ok (record s { body_start = pos - length f.value - 2 })

-- One round of the loop, and the state that the next round's test reads.
unfoldable pub header_round :
    HeaderState → FieldIterator → ParseResult (HeaderState × FieldIterator)
unfolding mark_seen take_field
header_round s it =
    let (field, it') = next it in
    if field.tag == 0
    then err (elim (it'.last_error) [ no_error ↦ invalid_field_format | code ↦ code ]) 0
        (position it')
    else do
      marked ← mark_seen s field.tag
      taken ← take_field marked field (position it')
      ok (taken, it')

abbrev pub max_header_fields : ℕ
max_header_fields = 10

-- A round that goes on takes at least one byte, so more rounds than bytes are never begun.
unfoldable pub header_loop :
    ℕ → HeaderState → FieldIterator → ParseResult (HeaderState × FieldIterator)
header_loop zero s it = ok (s, it)
header_loop (suc fuel) s it =
    elim (has_next it && ltb s.fields_parsed max_header_fields && s.body_start == 0) [
      | false ↦ ok (s, it)
      | true ↦ elim (header_round s it) [
        | err code tag offset ↦ err code tag offset
        | ok (s', it') ↦ header_loop fuel s' it'
      ]
    ]

abbrev pub header_fuel : Bytes → ℕ
header_fuel bytes = suc (length bytes)

abbrev pub is_zero : ℤ → Bool
is_zero (ℤ.pos n) = n == 0
is_zero (negsuc n) = false

-- The checks behind the loop.
unfoldable pub check_required : MessageHeader → ParseResult MessageHeader
check_required h =
    if is_empty h.begin_string
    then err missing_required_field Tag.begin_string 0
    else if is_zero h.body_length
    then err missing_required_field Tag.body_length 0
    else if h.msg_type == 0
    then err missing_required_field Tag.msg_type 0
    else if is_empty h.sender_comp_id
    then err missing_required_field Tag.sender_comp_id 0
    else if is_empty h.target_comp_id
    then err missing_required_field Tag.target_comp_id 0
    else if h.msg_seq_num == 0
    then err missing_required_field Tag.msg_seq_num 0
    else ok h

-- The header, and the offset at which the body begins.
unfoldable pub parse_header : Bytes → ParseResult (MessageHeader × ℕ)
parse_header bytes = if ltb (length bytes) min_message_size then err buffer_too_short 0 0 else do
  (s, it) ← header_loop (header_fuel bytes) start_state (iterate bytes)
  h ← check_required s.header
  ok (h, if s.body_start == 0 then position it else s.body_start)
