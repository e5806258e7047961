-- ===== src/Parser/Stream.antt =====
-- include/nexusfix/parser/runtime_parser.hpp, class StreamParser. `pending` holds the first
-- `pending_count_` boundaries, as the first index and the index behind the last one.
pub mod Fed
use nexus_fix.Base.{
  ℕ, zero, suc, ◌+◌, Bool, ◌&&◌, not, List, [], ◌∷◌, ◌++◌, Option, none, some, ltb, if◌then◌else◌,
  Bytes, length, drop, is_empty,
}
use nexus_fix.Parser.Boundary.{MessageBoundary, find_message_boundary}

abbrev pub max_pending : ℕ
max_pending = 16

pub record StreamParser : Type 0 where
  pub pending : List (ℕ × ℕ)

-- The boundary that a round finds; a round that breaks off the loop is `none`.
unfoldable pub take_boundary : MessageBoundary → ℕ × StreamParser → Option (ℕ × StreamParser)
take_boundary b (consumed, p) =
    if b.complete
    then some (
      consumed + b.end,
      record { pending = p.pending ++ (consumed + b.start, consumed + b.end) ∷ [] },
    )
    else if b.corrupt
    then some (consumed + b.end, p)
    else none

unfoldable pub feed_round : Bytes → ℕ × StreamParser → Option (ℕ × StreamParser)
feed_round bytes (consumed, p) =
    if ltb consumed (length bytes) && ltb (length p.pending) max_pending
    then take_boundary (find_message_boundary (drop consumed bytes)) (consumed, p)
    else none

-- Each round but the last consumes a byte.
unfoldable pub feed_loop : ℕ → Bytes → ℕ × StreamParser → ℕ × StreamParser
feed_loop zero bytes s = s
feed_loop (suc fuel) bytes s = elim (feed_round bytes s) [
  | none ↦ s
  | some s' ↦ feed_loop fuel bytes s'
]

-- `feed`: the number of bytes consumed, and the parser behind.
unfoldable pub feed : Bytes → StreamParser → ℕ × StreamParser
feed bytes p = feed_loop (length bytes + 1) bytes (0, p)

abbrev pub has_message : StreamParser → Bool
has_message p = not (is_empty p.pending)

-- `next_message`: the oldest boundary, and the parser behind.
abbrev next_pending : List (ℕ × ℕ) → (ℕ × ℕ) × List (ℕ × ℕ)
next_pending [] = ((0, 0), [])
next_pending (first ∷ rest) = (first, rest)

unfoldable pub next_message : StreamParser → (ℕ × ℕ) × StreamParser
next_message p = let (first, rest) = next_pending p.pending in (first, record { pending = rest })

abbrev pub reset : StreamParser → StreamParser
reset p = record { pending = [] }
