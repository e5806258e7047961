-- ===== src/Sbe/Header.antt =====
-- include/nexusfix/sbe/message_header.hpp. A buffer is its bytes, and `none` is a null pointer.
pub mod Written
use nexus_fix.Base.{
  ℕ, ◌+◌, ◌-◌, Bool, true, false, ◌&&◌, Option, none, some, Bytes, leb, ltb, ◌==◌, if◌then◌else◌,
  length,
}
use nexus_fix.Sbe.Bytes.{overwrite, slice, read_le, write_le}

abbrev pub header_size : ℕ
header_size = 8

abbrev pub schema_id : ℕ
schema_id = 1

abbrev pub schema_version : ℕ
schema_version = 1

abbrev pub new_order_single_id : ℕ
new_order_single_id = 1

abbrev pub execution_report_id : ℕ
execution_report_id = 8

-- A field of two bytes.
abbrev pub read_uint16 : ℕ → Bytes → ℕ
read_uint16 offset buffer = read_le (slice offset 2 buffer)

abbrev pub write_uint16 : ℕ → ℕ → Bytes → Bytes
write_uint16 offset value buffer = overwrite offset (write_le 2 value) buffer

abbrev pub block_length : Bytes → ℕ
block_length = read_uint16 0

abbrev pub template_id : Bytes → ℕ
template_id = read_uint16 2

abbrev pub read_schema_id : Bytes → ℕ
read_schema_id = read_uint16 4

abbrev pub read_version : Bytes → ℕ
read_version = read_uint16 6

-- `MessageHeader::isValid`
unfoldable pub is_valid_header : Option Bytes → Bool
is_valid_header none = false
is_valid_header (some buffer) = leb header_size (length buffer)

abbrev pub message_size : Bytes → ℕ
message_size buffer = header_size + block_length buffer

-- `MessageHeader::bodyLength`: what the buffer has behind the header.
abbrev pub body_bytes : Bytes → ℕ
body_bytes buffer = if ltb header_size (length buffer) then length buffer - header_size else 0

abbrev pub validate_schema : Bytes → Bool
validate_schema buffer = read_schema_id buffer == schema_id && read_version buffer == schema_version

-- `MessageHeader::encodeHeader`
unfoldable pub write_header : ℕ → ℕ → Bytes → Bytes
write_header block template buffer =
    write_uint16 6 schema_version
      (write_uint16 4 schema_id (write_uint16 2 template (write_uint16 0 block buffer)))

-- `isValid` of a codec: room for the whole message, and the header of its template.
unfoldable pub is_message : (template block : ℕ) → Option Bytes → Bool
is_message template block none = false
is_message template block (some buffer) =
    if ltb (length buffer) (header_size + block)
    then false
    else is_valid_header (some buffer)
      && template_id buffer == template
      && block_length buffer == block
