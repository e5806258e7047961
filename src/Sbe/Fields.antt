-- ===== src/Sbe/Fields.antt =====
-- include/nexusfix/sbe/types/composite_types.hpp: how the fields of a message are laid out. A codec of
-- a field takes the bytes of the field from the buffer, or gives the bytes that it writes there. The
-- enumerations are single characters, which are not checked when they are read.
pub mod Strings
use nexus_fix.Base.{
  ℕ, zero, suc, ◌+◌, ◌-◌, ◌^◌, Bool, true, false, not, ◌&&◌, List, [], ◌∷◌, ◌++◌, Bytes, ltb, leb,
  ◌==◌, if◌then◌else◌, length, take, replicate, get_or, all,
}
use nexus_fix.Base.Words.{ℤ, pos, negsuc}
use nexus_fix.Types.Fixed.{FixedPrice, Qty, Timestamp}
use nexus_fix.Sbe.Bytes.{read_int64, write_int64}

abbrev pub padding_char : ℕ
padding_char = b' '

-- The loop of `FixedString::decode`: while the byte before `len` is a space, `len` falls.
unfoldable pub trim_from : Bytes → ℕ → ℕ
trim_from buffer zero = 0
trim_from buffer (suc len) =
    let rest = trim_from buffer len in if get_or buffer len 0 == padding_char then rest else suc len

-- `FixedString<N>::decode`, for the N bytes of the field.
abbrev pub decode_string : ℕ → Bytes → Bytes
decode_string size buffer = take (trim_from buffer size) buffer

-- `FixedString<N>::encode`: whether the value fits, and the bytes of the field.
abbrev pub encode_string : ℕ → Bytes → Bool × Bytes
encode_string size value =
    let truncated = ltb size (length value) in
    let copy_len = if truncated then size else length value in
    (not truncated, take copy_len value ++ replicate (size - copy_len) padding_char)

-- `FixedString<N>::is_null`
abbrev pub is_null_string : Bytes → Bool
is_null_string buffer = all (λ c. if c == padding_char then true else c == 0) buffer

abbrev pub decode_price : Bytes → FixedPrice
decode_price buffer = record { raw = read_int64 buffer }

abbrev pub encode_price : FixedPrice → Bytes
encode_price value = write_int64 value.raw

abbrev pub decode_qty : Bytes → Qty
decode_qty buffer = record { raw = read_int64 buffer }

abbrev pub encode_qty : Qty → Bytes
encode_qty value = write_int64 value.raw

abbrev pub decode_time : Bytes → Timestamp
decode_time buffer = record { nanos = read_int64 buffer }

abbrev pub encode_time : Timestamp → Bytes
encode_time value = write_int64 value.nanos

-- `SbeSide`, `SbeOrdType`, `SbeExecType` and `SbeOrdStatus`.
abbrev pub decode_char : Bytes → ℕ
decode_char buffer = get_or buffer 0 0

abbrev pub encode_char : ℕ → Bytes
encode_char value = value ∷ []
