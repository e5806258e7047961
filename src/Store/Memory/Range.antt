-- ===== src/Store/Memory/Range.antt =====
-- The loop of `retrieve_range`: what it returns, and the one end of the range at which it does not
-- return.
use nexus_fix.Base.{
  ℕ, zero, suc, ◌+◌, ◌-◌, ◌≤◌, ◌<◌, ◌≡◌, refl, List, [], ◌∷◌, none, some, arith, Bytes, length,
}
use native.Mathlib.Decide.{dec_lt}
use nexus_fix.Base.Words.{wrap32}
use nexus_fix.Store.Memory.Entries.{Entries}
use nexus_fix.Store.Memory.{
  MemoryMessageStore, uint32_max, find, range_loop, range_fuel, range_end, count_retrieved,
  retrieve_range,
}

-- The messages held under the `n` numbers from `seq` on, in the order of the numbers.
unfoldable pub messages_from : Entries → ℕ → ℕ → List Bytes
messages_from m seq zero = []
messages_from m seq (suc n) = elim (find seq m) [
  | none ↦ messages_from m (seq + 1) n
  | some msg ↦ msg ∷ messages_from m (seq + 1) n
]

range_loop-messages_from :
    (fuel n : ℕ) (m : Entries) (seq end : ℕ)
    → end < uint32_max
    → seq + n ≡ end + 1
    → n < fuel
    → range_loop fuel m seq end ≡ some (messages_from m seq n)
unfolding range_loop messages_from
range_loop-messages_from zero n m seq end e s f = absurd (omega arith)
range_loop-messages_from (suc fuel) zero m seq end e s f = ground arith
range_loop-messages_from (suc fuel) (suc n) m seq end e s f =
    ground (arith, range_loop-messages_from fuel n m (seq + 1) end)

range_loop_past :
    (fuel : ℕ) (m : Entries) (seq end : ℕ) → end < seq → range_loop (suc fuel) m seq end ≡ some []
unfolding range_loop
range_loop_past fuel m seq end h = ground arith

range_loop_endless :
    (fuel : ℕ) (m : Entries) (seq : ℕ) → seq ≤ uint32_max → range_loop fuel m seq uint32_max ≡ none
unfolding range_loop
range_loop_endless zero m seq h = refl
range_loop_endless (suc fuel) m seq h = ground (arith, range_loop_endless fuel m (wrap32 (seq + 1)))

range_loop-range :
    (m : Entries) (begin end : ℕ)
    → end < uint32_max
    → range_loop range_fuel m begin end ≡ some (messages_from m begin (end + 1 - begin))
unfolding messages_from
range_loop-range m begin end h = elim (dec_lt end begin) [
  | yes past ↦
      let none_left : end + 1 - begin ≡ 0 = omega arith in
      rw none_left (range_loop_past (range_fuel - 1) m begin end past)
  | no within ↦
      range_loop-messages_from range_fuel (end + 1 - begin) m begin end h (omega arith)
        (omega arith)
]

-- A range whose end is below the largest `uint32_t` is read to its end: the messages held under
-- its numbers come back in the order of the numbers, none is left out or repeated, and the
-- store keeps them.
pub retrieve_range-messages :
    (s : MemoryMessageStore) (begin end : ℕ)
    → range_end s end < uint32_max
    → (s' : MemoryMessageStore) × (retrieve_range s begin end
        ≡ some (messages_from s.messages begin (range_end s end + 1 - begin), s'))
      × (s'.messages ≡ s.messages)
unfolding retrieve_range
retrieve_range-messages s begin end h = (
  count_retrieved s (length (messages_from s.messages begin (range_end s end + 1 - begin))),
  rw (range_loop-range s.messages begin (range_end s end) h, retrieve_range) refl,
  refl,
)

-- The loop of a range that begins at a `uint32_t` and ends at the largest one does not end,
-- however many rounds it is given.
pub retrieve_range_endless :
    (s : MemoryMessageStore) (begin end fuel : ℕ)
    → begin ≤ uint32_max
    → range_end s end ≡ uint32_max
    → range_loop fuel s.messages begin (range_end s end) ≡ none
retrieve_range_endless s begin end fuel h e = rw e (range_loop_endless fuel s.messages begin h)
