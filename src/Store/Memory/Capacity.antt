-- ===== src/Store/Memory/Capacity.antt =====
-- The bookkeeping of MemoryMessageStore, and what `store` does to the messages held.
use mathlib.Core.Bool.{false≢true}
use nexus_fix.Base.{
  ℕ, ◌+◌, ◌≤◌, ◌<◌, ◌≡◌, ◌≢◌, refl, ap, ◌∙◌, true, false, not, ◌&&◌, List, [], ◌∷◌, Bool, none,
  some, inl, inr, arith, ◌==◌, if◌then◌else◌, Bytes, length, is_empty, Option-cases, Bool-cases,
}
use nexus_fix.Store.Memory.Entries.{
  Entries, Distinct, AtLeast, AtMost, total, find-erase, Distinct-erase, AtMost-erase, AtLeast-mono,
  total-erase, min_key-le, min_key-found,
}
use nexus_fix.Store.Memory.{
  MemoryMessageStore, Config, uint32_max, find, erase, min_key, evict_oldest_locked, insert_message,
  is_full, place, store,
}

-- The counters agree with the messages, and the tracked minimum is the smallest key.
pub record Kept (messages : Entries) (total_bytes min_seq : ℕ) : Type 0 where
  pub distinct : Distinct messages
  pub fits : AtMost uint32_max messages
  pub bytes : total_bytes ≡ total messages
  pub least : AtLeast min_seq messages
  pub found : is_empty messages ≡ false → find min_seq messages ≢ none
  pub unset : is_empty messages ≡ true → min_seq ≡ uint32_max

abbrev pub IsKept : MemoryMessageStore → Type 0
IsKept s = Kept s.messages s.total_bytes s.min_seq

new_min :
    (rest : Entries)
    → AtMost uint32_max rest
    → let least = if is_empty rest then uint32_max else min_key uint32_max rest in
      AtLeast least rest × (is_empty rest ≡ false → find least rest ≢ none)
new_min [] h = (tt, λ n. cc)
new_min ((j, v) ∷ m) h =
    ((min_key-le uint32_max ((j, v) ∷ m)).1, λ n. min_key-found ((j, v) ∷ m) n h)

-- Eviction takes out the entry with the smallest key, and nothing else.
evict-IsKept :
    (s : MemoryMessageStore)
    → IsKept s
    → is_empty s.messages ≡ false
    → IsKept (evict_oldest_locked s)
      × (length (evict_oldest_locked s).messages + 1 ≡ length s.messages)
      × ((evict_oldest_locked s).messages ≡ erase s.min_seq s.messages)
unfolding evict_oldest_locked
evict-IsKept s v n = elim (Option-cases (find s.min_seq s.messages)) [
  | inl gone ↦ absurd (v.found n gone)
  | inr (msg, here) ↦
      let fits = AtMost-erase uint32_max s.min_seq s.messages v.fits in
      let (sums, counts) = total-erase s.min_seq s.messages msg here in
      let (least, found) = new_min (erase s.min_seq s.messages) fits in
      rw (n, here)
        (
          record {
            distinct = Distinct-erase s.min_seq s.messages v.distinct;
            fits = fits;
            bytes = omega (arith, v.bytes);
            least = least;
            found = found;
            unset = λ e. rw e;
          },
          counts,
          refl,
        )
]

insert-IsKept :
    (s : MemoryMessageStore) (k : ℕ) (msg : Bytes)
    → IsKept s
    → k ≤ uint32_max
    → find k s.messages ≡ none
    → IsKept (insert_message s k msg)
unfolding insert_message find
insert-IsKept s k msg v h new = record {
  distinct = (new, v.distinct);
  fits = (h, v.fits);
  bytes = omega (arith, v.bytes);
  least = ground (arith, AtLeast-mono s.min_seq k s.messages);
  found = λ e. ground (arith, Bool-cases (is_empty s.messages), v.found, v.unset);
  unset = λ e. cc;
}

-- The store may hold no more messages than it was configured for.
abbrev pub WithinCount : MemoryMessageStore → Type 0
WithinCount s = length s.messages ≤ s.config.max_messages

evict-config :
    (s : MemoryMessageStore) → (evict_oldest_locked s).config.max_messages ≡ s.config.max_messages
unfolding evict_oldest_locked
evict-config s = ground arith

room :
    (s : MemoryMessageStore) (n : ℕ)
    → is_full s n ≡ false
    → length s.messages < s.config.max_messages
room s n h = ground arith

module _ (grants : List ℕ → ℕ → Bool) where
  place-IsKept :
      (s : MemoryMessageStore) (k : ℕ) (msg : Bytes)
      → IsKept s
      → k ≤ uint32_max
      → IsKept (place grants s k msg).1
        × (length (place grants s k msg).1.messages ≤ length s.messages + 1)
        × ((place grants s k msg).1.config ≡ s.config)
  unfolding place
  place-IsKept s k msg v h = elim (Bool-cases (grants s.pool (length msg))) [
    | inl granted ↦ elim (Option-cases (find k s.messages)) [
      | inl new ↦
          rw (granted, new)
            (
              insert-IsKept (record s { pool = length msg ∷ s.pool }) k msg v h new,
              unfold insert_message in omega arith,
              unfold insert_message in refl,
            )
      | inr (old, here) ↦ rw (granted, here) (v, omega arith, refl)
    ]
    | inr refused ↦ rw refused (v, omega arith, refl)
  ]

  -- Storing a message under a `uint32_t` keeps the byte count and the smallest number of a
  -- store right and its number of messages within its limit, whether the message is stored,
  -- refused, or makes room for itself.
  pub store-IsKept :
      (s : MemoryMessageStore) (k : ℕ) (msg : Bytes)
      → IsKept s
      → WithinCount s
      → k ≤ uint32_max
      → IsKept (store grants s k msg).1 × WithinCount (store grants s k msg).1
  unfolding store
  store-IsKept s k msg v c h = elim (Bool-cases (is_full s (length msg))) [
    | inl full ↦ elim (Bool-cases (s.config.evict_oldest && not (is_empty s.messages))) [
      | inl evicts ↦
          let (kept, fewer, _) = evict-IsKept s v (ground arith) in
          let (kept', grown, same) = place-IsKept (evict_oldest_locked s) k msg kept h in
          rw (full, evicts)
            (kept', omega (arith, ap (λ (c : Config). c.max_messages) same, evict-config s))
      | inr refuses ↦ rw (full, refuses) (v, c)
    ]
    | inr free ↦
        let (kept, grown, same) = place-IsKept s k msg v h in
        rw free
          (kept, omega (arith, ap (λ (c : Config). c.max_messages) same, room s (length msg) free))
  ]

  place-lookup :
      (s : MemoryMessageStore) (k j : ℕ) (msg : Bytes)
      → (place grants s k msg).0 ≡ true
      → find j (place grants s k msg).1.messages ≡ (if k == j then some msg else find j s.messages)
  unfolding place insert_message find
  place-lookup s k j msg h = ground arith

  -- In a store whose counters agree with its messages, a message that is reported as stored is
  -- found under its number. Every other number finds what it found before, but for the smallest
  -- number of a store that was full: its message is gone.
  pub store-lookup :
      (s : MemoryMessageStore) (k j : ℕ) (msg : Bytes)
      → IsKept s
      → (store grants s k msg).0 ≡ true
      → find j (store grants s k msg).1.messages ≡ (
          if k == j
          then some msg
          else if is_full s (length msg) && j == s.min_seq
          then none
          else find j s.messages)
  unfolding store
  store-lookup s k j msg v h = elim (Bool-cases (is_full s (length msg))) [
    | inl full ↦ elim (Bool-cases (s.config.evict_oldest && not (is_empty s.messages))) [
      | inl evicts ↦
          let (kept, fewer, same) = evict-IsKept s v (ground arith) in
          rw (full, evicts)
            (place-lookup (evict_oldest_locked s) k j msg (rw (full, evicts) at h)
              ∙ rw (same, find-erase j s.min_seq s.messages v.distinct) (ground arith))
      | inr refuses ↦ absurd (false≢true (rw (full, refuses) at h))
    ]
    | inr free ↦ rw free (place-lookup s k j msg (rw free at h))
  ]
