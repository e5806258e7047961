-- ===== src/Parser/Stream/Fed.antt =====
-- What `feed` of include/nexusfix/parser/runtime_parser.hpp leaves: the boundaries that it queues, and
-- why it stops.
use nexus_fix.Base.{
  ℕ, ◌+◌, ◌≤◌, ◌<◌, ◌≡◌, List, [], ◌∷◌, ◌++◌, Option, none, some, Bytes, length, drop,
}
use nexus_fix.Parser.Boundary.Bounds.{IsMessage}
use nexus_fix.Parser.Stream.{max_pending, StreamParser}

-- Boundaries of messages, in order and apart, in the bytes between two positions.
abbrev pub IsFramed : Bytes → ℕ → List (ℕ × ℕ) → ℕ → Type 0
IsFramed bytes from [] to = from ≤ to
IsFramed bytes from ((first, behind) ∷ rest) to =
    (p start end : ℕ) × (from ≤ p
      × (first ≡ p + start
          × (behind ≡ p + end
              × (IsMessage (drop p bytes) start end × IsFramed bytes behind rest to))))

-- What a run of rounds adds to the state: the boundaries behind those that were pending.
pub record Adds (bytes : Bytes) (from : ℕ) (p : StreamParser) (to : ℕ) (q : StreamParser)
    : Type 0 where
  pub frames : List (ℕ × ℕ)
  pub appended : q.pending ≡ p.pending ++ frames
  pub framed : IsFramed bytes from frames to
  pub within : to ≤ length bytes
  pub bounded : length q.pending ≤ max_pending

module _ (bytes : Bytes) where
  -- What a round that does not break off does: it moves on.
  abbrev Grows : ℕ → StreamParser → Option (ℕ × StreamParser) → Type 0
  Grows c p none = Unit {0}
  Grows c p (some (d, q)) = Adds bytes c p d q × c < d
