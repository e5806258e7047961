-- ===== src/Parser/Boundary.antt =====
-- include/nexusfix/parser/simd_scanner.hpp: find_message_boundary, from the start of the bytes, with
-- the scalar `find_soh` from a start within the bytes. A loop runs on fuel: each round moves on by a byte, so the number of the bytes
-- is enough.
pub mod Declared
pub mod Bounds
use nexus_fix.Base.{
  ℕ, zero, suc, ◌+◌, ◌-◌, ◌*◌, Bool, true, false, not, ◌&&◌, Option, none, some, ltb, leb, ◌==◌,
  if◌then◌else◌, Bytes, [], ◌∷◌, length, drop,
}
use nexus_fix.Base.Words.{wrap64, sub64}
use nexus_fix.Types.{soh}
use nexus_fix.Parser.FieldView.{is_digit}
use nexus_fix.Parser.Frame.{at}
use nexus_fix.Parser.Vector.{seek}

pub record MessageBoundary : Type 0 where
  pub start : ℕ
  pub end : ℕ
  pub complete : Bool
  pub corrupt : Bool

abbrev pub max_message_size : ℕ
max_message_size = 65536

-- What is returned when no trailer is accepted.
unfoldable pub no_trailer : ℕ → ℕ → MessageBoundary
no_trailer msg_start first_corrupt_end =
    if ltb 0 first_corrupt_end
    then record { start = msg_start; end = first_corrupt_end; complete = false; corrupt = true }
    else record { start = msg_start; end = 0; complete = false; corrupt = false }

-- Whether the body that ends at the SOH at `i` has the declared length.
abbrev pub length_agrees : Option (ℕ × ℕ) → ℕ → Bool
length_agrees none i = true
length_agrees (some (declared, body_start)) i = declared == wrap64 (sub64 i body_start + 1)

module _ (bytes : Bytes) where
  abbrev pub size : ℕ
  size = length bytes

  abbrev pub soh_from : ℕ → ℕ
  soh_from start = seek soh (drop start bytes) start

  unfoldable pub starts_message : ℕ → Bool
  starts_message i = at bytes i == b'8' && at bytes (i + 1) == b'=' && at bytes (i + 2) == b'F'

  -- The byte behind the next SOH.
  abbrev pub behind_soh : ℕ → ℕ
  behind_soh i = let p = soh_from i in if ltb p size then p + 1 else p

  -- `msg_start` when its loop is done.
  unfoldable pub find_start : ℕ → ℕ → ℕ
  find_start zero i = i
  find_start (suc fuel) i =
      let rest = find_start fuel (behind_soh i) in
      if ltb (i + 5) size && not (starts_message i) then rest else i

  abbrev pub search_end : ℕ → ℕ
  search_end msg_start =
      let most = msg_start + max_message_size in if ltb size most then size else most

  -- The digits of a body length: the number, whether there was a digit, and the index behind them.
  unfoldable pub read_length : ℕ → ℕ → ℕ → ℕ → Bool → ℕ × Bool × ℕ
  read_length zero last k number has_digit = (number, has_digit, k)
  read_length (suc fuel) last k number has_digit =
      let rest = read_length fuel last (k + 1) (wrap64 (number * 10 + (at bytes k - b'0'))) true in
      if ltb k last && is_digit (at bytes k) then rest else (number, has_digit, k)

  -- The declared body length and the index of the first byte of the body, at the field's SOH.
  unfoldable pub length_at : ℕ → ℕ → Option (ℕ × ℕ)
  length_at last j =
      let (number, has_digit, k) = read_length size last (j + 3) 0 false in
      if has_digit && (ltb k last && at bytes k == soh) then some (number, k + 1) else none

  unfoldable pub find_length : ℕ → ℕ → ℕ → Option (ℕ × ℕ)
  find_length zero last j = none
  find_length (suc fuel) last j =
      let rest = find_length fuel last (j + 1) in
      if ltb (j + 3) last
      then (if at bytes j == soh && (at bytes (j + 1) == b'9' && at bytes (j + 2) == b'=')
          then length_at last j
          else rest)
      else none

  unfoldable pub is_trailer : ℕ → Bool
  is_trailer i =
      at bytes i == soh
      && (at bytes (i + 1) == b'1' && (at bytes (i + 2) == b'0' && at bytes (i + 3) == b'='))

  -- A trailer that ends before `last`.
  abbrev pub is_candidate : ℕ → ℕ → Bool
  is_candidate last i = is_trailer i && ltb (soh_from (i + 4)) last

  unfoldable pub find_end : ℕ → ℕ → ℕ → Option (ℕ × ℕ) → ℕ → ℕ → MessageBoundary
  find_end zero msg_start last declared i first = no_trailer msg_start first
  find_end (suc fuel) msg_start last declared i first =
      let behind = soh_from (i + 4) + 1 in
      let first' = if is_candidate last i && first == 0 then behind else first in
      let rest = find_end fuel msg_start last declared (i + 1) first' in
      if ltb (i + 7) last
      then (if is_candidate last i && length_agrees declared i
          then record { start = msg_start; end = behind; complete = true; corrupt = false }
          else rest)
      else no_trailer msg_start first

  unfoldable pub find_message_boundary : MessageBoundary
  find_message_boundary =
      let msg_start = find_start size 0 in
      let last = search_end msg_start in
      if leb size (msg_start + 5)
      then record { start = 0; end = 0; complete = false; corrupt = false }
      else find_end size msg_start last (find_length size last msg_start) (msg_start + 20) 0
