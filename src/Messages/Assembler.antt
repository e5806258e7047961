-- ===== src/Messages/Assembler.antt =====
-- include/nexusfix/messages/common/trailer.hpp, class MessageAssembler. The list holds the first
-- `pos_` bytes of the buffer.
pub mod Appended
pub mod Checksum
pub mod Decimal
use nexus_fix.Base.{
  ℕ, zero, suc, ◌+◌, ◌-◌, ◌*◌, ◌/◌, ◌%◌, Bool, true, false, not, List, [], ◌∷◌, ◌++◌, ltb, leb,
  ◌==◌, if◌then◌else◌, Bytes, codes, length, set, drop,
}
use nexus_fix.Base.Words.{ℤ, pos, negsuc}
use nexus_fix.Types.{soh, equals, calculate_checksum, format_checksum}
use nexus_fix.Types.Tag

abbrev pub max_message_size : ℕ
max_message_size = 4096

pub record MessageAssembler : Type 0 where
  pub buffer : Bytes
  pub body_length_pos : ℕ
  pub body_start : ℕ
  pub truncated : Bool

abbrev pub new_assembler : MessageAssembler
new_assembler = record { buffer = []; body_length_pos = 0; body_start = 0; truncated = false }

-- One byte is appended, or dropped and the drop recorded.
unfoldable pub append_byte : MessageAssembler → ℕ → MessageAssembler
append_byte a c =
    if ltb (length a.buffer) max_message_size
    then record a { buffer = a.buffer ++ c ∷ [] }
    else record a { truncated = true }

unfoldable pub append_raw : MessageAssembler → Bytes → MessageAssembler
append_raw a [] = a
append_raw a (c ∷ cs) = append_raw (append_byte a c) cs

abbrev pub append_soh : MessageAssembler → MessageAssembler
append_soh a = append_byte a soh

-- The decimal digits of a number, the last one first: `do { … } while (t > 0)`.
unfoldable pub digits_loop : ℕ → ℕ → Bytes
digits_loop zero n = (b'0' + n % 10) ∷ []
digits_loop (suc fuel) n =
    let more = digits_loop fuel (n / 10) in
    if n / 10 == 0 then (b'0' + n % 10) ∷ [] else (b'0' + n % 10) ∷ more

unfoldable pub reverse_onto : Bytes → Bytes → Bytes
reverse_onto out [] = out
reverse_onto out (c ∷ cs) = reverse_onto (c ∷ out) cs

-- No number of 64 bits has more than twenty digits.
unfoldable pub to_digits : ℕ → Bytes
unfolding digits_loop reverse_onto
to_digits n = reverse_onto [] (digits_loop 20 n)

unfoldable pub append_field : MessageAssembler → ℕ → Bytes → MessageAssembler
append_field a tag value =
    append_soh (append_raw (append_byte (append_raw a (to_digits tag)) equals) value)

abbrev pub length_placeholder : Bytes
length_placeholder = codes "9=000000"

unfoldable pub start : MessageAssembler → Bytes → MessageAssembler
start a begin_string =
    let cleared = record a { buffer = []; truncated = false } in
    let begun = append_field cleared Tag.begin_string begin_string in
    let placed =
      append_soh
        (append_raw (record begun { body_length_pos = length begun.buffer }) length_placeholder) in
    record placed { body_start = length placed.buffer }

abbrev pub field : MessageAssembler → ℕ → Bytes → MessageAssembler
field a tag value = append_field a tag value

-- The overload for `int64_t`.
unfoldable pub field_int : MessageAssembler → ℕ → ℤ → MessageAssembler
field_int a tag (pos n) = field a tag (to_digits n)
field_int a tag (negsuc n) = field a tag (b'-' ∷ to_digits (n + 1))

-- The digits written over the placeholder, from the last of the six to the first.
unfoldable pub write_length : ℕ → Bytes → ℕ → ℕ → Bytes
write_length zero buffer len_pos body_length = buffer
write_length (suc i) buffer len_pos body_length =
    write_length i (set buffer (len_pos + i) (b'0' + body_length % 10)) len_pos (body_length / 10)

unfoldable pub finish : MessageAssembler → MessageAssembler
finish a =
    let body_length = length a.buffer - a.body_start in
    let sized = record a {
      buffer =
          if leb (a.body_length_pos + 8) max_message_size
          then write_length 6 a.buffer (a.body_length_pos + 2) body_length
          else a.buffer;
    } in
    append_field sized Tag.check_sum (format_checksum (calculate_checksum sized.buffer))
