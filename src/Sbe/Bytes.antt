-- ===== src/Sbe/Bytes.antt =====
-- include/nexusfix/sbe/types/sbe_types.hpp, and the memory that it reads and writes: bytes at an
-- offset of a buffer. A write beyond the end of the buffer, which the code must not make, is dropped.
use nexus_fix.Base.{
  ℕ, zero, suc, ◌+◌, ◌-◌, ◌*◌, ◌/◌, ◌%◌, ◌^◌, [], ◌∷◌, Bytes, ltb, if◌then◌else◌, take, drop,
}
use nexus_fix.Base.Words.{ℤ, pos, negsuc}

-- `memcpy(buffer + offset, bytes, length bytes)`
unfoldable pub overwrite : ℕ → Bytes → Bytes → Bytes
overwrite offset bytes [] = []
overwrite zero [] (x ∷ buffer) = x ∷ buffer
overwrite zero (b ∷ bytes) (x ∷ buffer) = b ∷ overwrite zero bytes buffer
overwrite (suc offset) bytes (x ∷ buffer) = x ∷ overwrite offset bytes buffer

abbrev pub slice : ℕ → ℕ → Bytes → Bytes
slice offset size buffer = take size (drop offset buffer)

-- `read_le` of an unsigned type: the first byte is the lowest.
abbrev pub read_le : Bytes → ℕ
read_le [] = 0
read_le (b ∷ bytes) = b + 256 * read_le bytes

-- The bytes that `write_le` writes for an unsigned type of `size` bytes.
abbrev pub write_le : ℕ → ℕ → Bytes
write_le zero value = []
write_le (suc size) value = value % 256 ∷ write_le size (value / 256)

-- `static_cast` between `int64_t` and `uint64_t`.
abbrev pub to_u64 : ℤ → ℕ
to_u64 (pos n) = n % 2 ^ 64
to_u64 (negsuc n) = 2 ^ 64 - 1 - n % 2 ^ 64

abbrev pub to_i64 : ℕ → ℤ
to_i64 word = if ltb word (2 ^ 63) then pos word else negsuc (2 ^ 64 - 1 - word)

abbrev pub read_int64 : Bytes → ℤ
read_int64 bytes = to_i64 (read_le bytes)

abbrev pub write_int64 : ℤ → Bytes
write_int64 value = write_le 8 (to_u64 value)
