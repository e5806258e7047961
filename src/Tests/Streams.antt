-- ===== src/Tests/Streams.antt =====
-- The stream parser of include/nexusfix/parser/runtime_parser.hpp at work.
use nexus_fix.Base.{◌≡◌, refl, List, [], ◌∷◌, ◌++◌, Bytes, codes}
use nexus_fix.Types.{soh}
use nexus_fix.Parser.Vector.{seek}
use nexus_fix.Parser.Boundary.{
  starts_message, find_start, read_length, length_at, find_length, is_trailer, no_trailer, find_end,
  find_message_boundary,
}
use nexus_fix.Parser.Stream.{StreamParser, take_boundary, feed_round, feed_loop, feed, next_message}

abbrev message : List Bytes → Bytes
message [] = []
message (f ∷ fs) = f ++ soh ∷ message fs

abbrev fresh : StreamParser
fresh = record { pending = [] }

abbrev heartbeat : Bytes
heartbeat =
    message (codes "8=FIX.4.4" ∷ codes "9=10" ∷ codes "35=0" ∷ codes "34=1" ∷ codes "10=000" ∷ [])

-- A body length that is not that of the body.
abbrev mangled : Bytes
mangled =
    message (codes "8=FIX.4.4" ∷ codes "9=77" ∷ codes "35=0" ∷ codes "34=1" ∷ codes "10=000" ∷ [])

-- A body of 10 bytes that declares 2^64 + 10.
abbrev overlong : Bytes
overlong = message (
    codes "8=FIX.4.4"
    ∷ codes "9=18446744073709551626"
    ∷ codes "35=0"
    ∷ codes "34=1"
    ∷ codes "10=000"
    ∷ [])

overlong_framed : feed overlong fresh ≡ ((50, record { pending = (0, 50) ∷ [] }))
unfolding seek starts_message find_start read_length length_at find_length is_trailer no_trailer
    find_end find_message_boundary take_boundary feed_round feed_loop feed
overlong_framed = refl

-- The rest of a message, a mangled message, a whole one, and the beginning of another.
abbrev stream : Bytes
stream = codes "0=7" ++ soh ∷ mangled ++ heartbeat ++ codes "8=FIX"

stream-fed : feed stream fresh ≡ ((68, record { pending = (36, 68) ∷ [] }))
unfolding seek starts_message find_start read_length length_at find_length is_trailer no_trailer
    find_end find_message_boundary take_boundary feed_round feed_loop feed
stream-fed = refl

abbrev queued : StreamParser
queued = record { pending = (36, 68) ∷ (70, 80) ∷ [] }

queued-next : next_message queued ≡ ((36, 68), record { pending = (70, 80) ∷ [] })
unfolding next_message
queued-next = refl
