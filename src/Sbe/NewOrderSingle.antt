-- ===== src/Sbe/NewOrderSingle.antt =====
-- include/nexusfix/sbe/codecs/new_order_single.hpp. The getters read the fields of a buffer of the
-- whole message, the setters write them; a text that does not fit sets the flag of the codec.
mod Offset
pub mod Setters
pub mod RoundTrip
use nexus_fix.Base.{ℕ, ◌+◌, Bool, true, false, Option, Bytes, if◌then◌else◌, length, replicate}
use nexus_fix.Types.Fixed.{FixedPrice, Qty, Timestamp}
use nexus_fix.Sbe.Bytes.{overwrite, slice}
use nexus_fix.Sbe.Fields.{
  decode_string, encode_string, decode_price, encode_price, decode_qty, encode_qty, decode_time,
  encode_time, decode_char, encode_char,
}
use nexus_fix.Sbe.NewOrderSingle.Offset
use nexus_fix.Sbe.Header.{header_size, new_order_single_id, write_header, is_message}

abbrev pub template : ℕ
template = new_order_single_id

abbrev pub block_size : ℕ
block_size = 56

abbrev pub total_size : ℕ
total_size = header_size + block_size

pub record Codec : Type 0 where
  pub buffer : Bytes
  pub truncated : Bool

abbrev pub is_valid : Option Bytes → Bool
is_valid = is_message template block_size

-- The bytes of a field of the body.
abbrev field : ℕ → ℕ → Bytes → Bytes
field offset size buffer = slice (header_size + offset) size buffer

abbrev pub cl_ord_id : Bytes → Bytes
cl_ord_id buffer = decode_string 20 (field Offset.cl_ord_id 20 buffer)

abbrev pub symbol : Bytes → Bytes
symbol buffer = decode_string 8 (field Offset.symbol 8 buffer)

abbrev pub side : Bytes → ℕ
side buffer = decode_char (field Offset.side 1 buffer)

abbrev pub ord_type : Bytes → ℕ
ord_type buffer = decode_char (field Offset.ord_type 1 buffer)

abbrev pub price : Bytes → FixedPrice
price buffer = decode_price (field Offset.price 8 buffer)

abbrev pub order_qty : Bytes → Qty
order_qty buffer = decode_qty (field Offset.order_qty 8 buffer)

abbrev pub transact_time : Bytes → Timestamp
transact_time buffer = decode_time (field Offset.transact_time 8 buffer)

abbrev pub wrap_for_encode : Bytes → Codec
wrap_for_encode buffer = record { buffer = buffer; truncated = false }

unfoldable pub encode_header : Codec → Codec
encode_header c = record c {
  buffer =
      overwrite header_size (replicate block_size 0) (write_header block_size template c.buffer);
  truncated = false;
}

-- A setter of the field at an offset.
abbrev write : ℕ → Bytes → Codec → Codec
write offset bytes c = record c { buffer = overwrite (header_size + offset) bytes c.buffer }

abbrev write_string : ℕ → ℕ → Bytes → Codec → Codec
write_string offset size value c =
    let (fits, bytes) = encode_string size value in
    record (write offset bytes c) { truncated = if fits then c.truncated else true }

unfoldable pub set_cl_ord_id : Bytes → Codec → Codec
set_cl_ord_id value c = write_string Offset.cl_ord_id 20 value c

unfoldable pub set_symbol : Bytes → Codec → Codec
set_symbol value c = write_string Offset.symbol 8 value c

unfoldable pub set_side : ℕ → Codec → Codec
set_side value c = write Offset.side (encode_char value) c

unfoldable pub set_ord_type : ℕ → Codec → Codec
set_ord_type value c = write Offset.ord_type (encode_char value) c

unfoldable pub set_price : FixedPrice → Codec → Codec
set_price value c = write Offset.price (encode_price value) c

unfoldable pub set_order_qty : Qty → Codec → Codec
set_order_qty value c = write Offset.order_qty (encode_qty value) c

unfoldable pub set_transact_time : Timestamp → Codec → Codec
set_transact_time value c = write Offset.transact_time (encode_time value) c
