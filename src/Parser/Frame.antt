-- ===== src/Parser/Frame.antt =====
-- include/nexusfix/parser/consteval_parser.hpp, `validate_checksum` and `validate_body_length`: the
-- checks of the frame around a message's fields. A byte is read at an index as `get_or data i 0`; no
-- byte that the code looks for is 0, and the code reads inside the buffer.
use nexus_fix.Base.{
  ℕ, zero, suc, ◌+◌, ◌-◌, ◌*◌, ◌%◌, Bool, ◌&&◌, [], ◌∷◌, Option, none, some, ltb, leb, ◌==◌,
  if◌then◌else◌, Bytes, length, get_or, take, drop,
}
use nexus_fix.Base.Words.{ℤ, cast_size}
use nexus_fix.Types.{
  buffer_too_short, missing_required_field, invalid_checksum, body_length_mismatch, ParseResult, ok,
  err, soh, equals, calculate_checksum,
}
use nexus_fix.Types.Tag

abbrev pub at : Bytes → ℕ → ℕ
at bytes i = get_or bytes i 0

-- SOH, `10=` at index `i`.
unfoldable pub trailer_at : Bytes → ℕ → Bool
trailer_at bytes i =
    at bytes i == soh
    && at bytes (i + 1) == b'1'
    && at bytes (i + 2) == b'0'
    && at bytes (i + 3) == equals

-- The search from index `i` down to 1; the position behind `10=`, or the default.
unfoldable pub find_checksum : Bytes → ℕ → ℕ → ℕ
find_checksum bytes default zero = default
find_checksum bytes default (suc i) =
    if trailer_at bytes (suc i) then suc i + 4 else find_checksum bytes default i

-- A `char` is signed: this is its value plus 128.
abbrev pub char_plus_128 : ℕ → ℕ
char_plus_128 c = (c + 128) % 256

-- `actual == (p[0] - '0') * 100 + (p[1] - '0') * 10 + (p[2] - '0')`, with both sides plus
-- (128 + '0') * 111, so that no difference is negative.
abbrev pub checksum_matches : ℕ → Bytes → ℕ → Bool
checksum_matches actual bytes p =
    actual + (128 + b'0') * 111
    == char_plus_128 (at bytes p) * 100
      + char_plus_128 (at bytes (p + 1)) * 10
      + char_plus_128 (at bytes (p + 2))

unfoldable pub validate_checksum : Bytes → ParseResult (Unit {0})
validate_checksum bytes =
    if ltb (length bytes) 7
    then err buffer_too_short 0 0
    else (let p = find_checksum bytes (length bytes) (length bytes - 7) in
        if leb (length bytes - 3) p
        then err missing_required_field Tag.check_sum 0
        else if checksum_matches (calculate_checksum (take (p - 3) bytes)) bytes p
        then ok tt
        else err invalid_checksum Tag.check_sum 0)

-- The index of the first SOH in the bytes, whose first one has index `j`.
unfoldable pub find_soh : Bytes → ℕ → Option ℕ
find_soh [] j = none
find_soh (c ∷ cs) j = if c == soh then some j else find_soh cs (j + 1)

-- The first loop: past SOH, `9=`, the value and its SOH. 0 when there is none.
unfoldable pub find_body_start : Bytes → ℕ → ℕ
find_body_start [] i = 0
find_body_start (c ∷ cs) i =
    if c == soh && at cs 0 == b'9' && at cs 1 == equals
    then elim (find_soh (drop 2 cs) (i + 3)) [ none ↦ 0 | some j ↦ j + 1 ]
    else find_body_start cs (i + 1)

-- The second loop, from index `i` down to `body_start`: the SOH before the last `10=`, or 0.
unfoldable pub find_body_end : Bytes → ℕ → ℕ → ℕ
find_body_end bytes body_start zero = 0
find_body_end bytes body_start (suc i) =
    if ltb body_start (suc i)
    then (if trailer_at bytes i then i else find_body_end bytes body_start i)
    else 0

unfoldable pub validate_body_length : Bytes → ℤ → ParseResult (Unit {0})
validate_body_length bytes declared =
    let body_start = find_body_start bytes 0 in
    if body_start == 0
    then err missing_required_field 9 0
    else (let body_end = find_body_end bytes body_start (length bytes - 1) in
        if body_end == 0
        then err missing_required_field 10 0
        else if cast_size declared == body_end - body_start + 1
        then ok tt
        else err body_length_mismatch 9 0)
