-- ===== src/Store/Memory.antt =====
-- include/nexusfix/store/memory_message_store.hpp. The hash map is an association list with one
-- entry for a key; its iteration order matters nowhere. The locks make each method one step. The
-- polymorphic memory resource is not this code's: `grants` says whether it can serve a request,
-- given the sizes served since its last release.
pub mod Entries
pub mod Capacity
pub mod Range
use nexus_fix.Base.{
  ℕ, zero, suc, ◌+◌, ◌-◌, ◌^◌, Bool, true, false, not, ◌&&◌, ◌||◌, List, [], ◌∷◌, Option, none,
  some, ltb, leb, ◌==◌, if◌then◌else◌, Bytes, length, is_empty,
}
use nexus_fix.Base.Words.{wrap32}
use nexus_fix.Store.Interface.{IMessageStore, Stats, no_stats}

pub record Config : Type 0 where
  pub max_messages : ℕ
  pub max_bytes : ℕ
  pub evict_oldest : Bool
  pub pool_size_bytes : ℕ

pub record PoolMetrics : Type 0 where
  pub pool_capacity : ℕ
  pub bytes_allocated : ℕ
  pub peak_usage : ℕ
  pub reset_count : ℕ

abbrev pub uint32_max : ℕ
uint32_max = 2 ^ 32 - 1

pub record MemoryMessageStore : Type 0 where
  pub config : Config
  pub pool : List ℕ
  pub messages : List (ℕ × Bytes)
  pub total_bytes : ℕ
  pub min_seq : ℕ
  pub max_seq : ℕ
  pub next_sender_seq : ℕ
  pub next_target_seq : ℕ
  pub stats : Stats
  pub pool_metrics : PoolMetrics

abbrev pub new_store : Config → MemoryMessageStore
new_store c = record {
  config = c;
  pool = [];
  messages = [];
  total_bytes = 0;
  min_seq = uint32_max;
  max_seq = 0;
  next_sender_seq = 1;
  next_target_seq = 1;
  stats = no_stats;
  pool_metrics = record {
    pool_capacity = c.pool_size_bytes;
    bytes_allocated = 0;
    peak_usage = 0;
    reset_count = 0;
  };
}

-- `messages_.find`
unfoldable pub find : ℕ → List (ℕ × Bytes) → Option Bytes
find k [] = none
find k ((j, v) ∷ m) = if j == k then some v else find k m

-- `messages_.erase`
unfoldable pub erase : ℕ → List (ℕ × Bytes) → List (ℕ × Bytes)
erase k [] = []
erase k ((j, v) ∷ m) = if j == k then m else (j, v) ∷ erase k m

-- The loop that finds the new minimum.
unfoldable pub min_key : ℕ → List (ℕ × Bytes) → ℕ
min_key least [] = least
min_key least ((j, v) ∷ m) = min_key (if ltb j least then j else least) m

unfoldable pub evict_oldest_locked : MemoryMessageStore → MemoryMessageStore
evict_oldest_locked s = if is_empty s.messages then s else elim (find s.min_seq s.messages) [
  | none ↦ s
  | some msg ↦
      let rest = erase s.min_seq s.messages in
      record s {
        messages = rest;
        total_bytes = s.total_bytes - length msg;
        min_seq = if is_empty rest then uint32_max else min_key uint32_max rest;
      }
]

abbrev count_failure : MemoryMessageStore → MemoryMessageStore
count_failure s = record s {
  stats = record (s.stats) { store_failures = s.stats.store_failures + 1 };
}

-- The bookkeeping of a message that was inserted.
unfoldable pub insert_message : MemoryMessageStore → ℕ → Bytes → MemoryMessageStore
insert_message s seq_num msg =
    let allocated = s.pool_metrics.bytes_allocated + length msg in
    record s {
      messages = (seq_num, msg) ∷ s.messages;
      total_bytes = s.total_bytes + length msg;
      min_seq = if ltb seq_num s.min_seq then seq_num else s.min_seq;
      max_seq = if ltb s.max_seq seq_num then seq_num else s.max_seq;
      stats = record (s.stats) {
        messages_stored = s.stats.messages_stored + 1;
        bytes_stored = s.stats.bytes_stored + length msg;
      };
      pool_metrics = record (s.pool_metrics) {
        bytes_allocated = allocated;
        peak_usage =
            if ltb s.pool_metrics.peak_usage allocated
            then allocated
            else s.pool_metrics.peak_usage;
      };
    }

-- A `size_t` sum of sizes held in memory does not wrap.
abbrev pub is_full : MemoryMessageStore → ℕ → Bool
is_full s size =
    leb s.config.max_messages (length s.messages) || ltb s.config.max_bytes (s.total_bytes + size)

module _ (grants : List ℕ → ℕ → Bool) where
  -- The part of `store` behind the capacity check.
  unfoldable pub place : MemoryMessageStore → ℕ → Bytes → Bool × MemoryMessageStore
  place s seq_num msg =
      if grants s.pool (length msg)
      then (let served = record s { pool = length msg ∷ s.pool } in
          elim (find seq_num s.messages) [
            | none ↦ (true, insert_message served seq_num msg)
            | some _ ↦ (false, served)
          ])
      else (false, count_failure s)

  unfoldable pub store : MemoryMessageStore → ℕ → Bytes → Bool × MemoryMessageStore
  store s seq_num msg =
      if is_full s (length msg)
      then (if s.config.evict_oldest && not (is_empty s.messages)
          then place (evict_oldest_locked s) seq_num msg
          else (false, count_failure s))
      else place s seq_num msg

unfoldable pub retrieve : MemoryMessageStore → ℕ → Option Bytes × MemoryMessageStore
retrieve s seq_num = elim (find seq_num s.messages) [
  | none ↦ (none, s)
  | some msg ↦ (
    some msg,
    record s { stats = record (s.stats) { messages_retrieved = s.stats.messages_retrieved + 1 } },
  )
]

-- `for (seq = begin; seq <= actual_end; ++seq)` over `uint32_t`, with what is found; `none` when
-- the fuel runs out.
unfoldable pub range_loop : ℕ → List (ℕ × Bytes) → ℕ → ℕ → Option (List Bytes)
range_loop zero m seq end = none
range_loop (suc fuel) m seq end = elim (leb seq end) [
  | true ↦ elim (range_loop fuel m (wrap32 (seq + 1)) end) [
    | none ↦ none
    | some found ↦ elim (find seq m) [ none ↦ some found | some msg ↦ some (msg ∷ found) ]
  ]
  | false ↦ some []
]

-- More rounds than a `uint32_t` has values.
abbrev pub range_fuel : ℕ
range_fuel = 2 ^ 32 + 1

abbrev pub range_end : MemoryMessageStore → ℕ → ℕ
range_end s end_seq = if end_seq == 0 then s.max_seq else end_seq

abbrev pub count_retrieved : MemoryMessageStore → ℕ → MemoryMessageStore
count_retrieved s n = record s {
  stats = record (s.stats) { messages_retrieved = s.stats.messages_retrieved + n };
}

unfoldable pub retrieve_range :
    MemoryMessageStore → ℕ → ℕ → Option (List Bytes × MemoryMessageStore)
retrieve_range s begin_seq end_seq =
    elim (range_loop range_fuel s.messages begin_seq (range_end s end_seq)) [
      | none ↦ none
      | some found ↦ some (found, count_retrieved s (length found))
    ]

unfoldable pub reset : MemoryMessageStore → MemoryMessageStore
reset s = record s {
  pool = [];
  messages = [];
  total_bytes = 0;
  min_seq = uint32_max;
  max_seq = 0;
  next_sender_seq = 1;
  next_target_seq = 1;
  stats = no_stats;
  pool_metrics = record (s.pool_metrics) {
    reset_count = s.pool_metrics.reset_count + 1;
    bytes_allocated = 0;
  };
}

abbrev pub message_count : MemoryMessageStore → ℕ
message_count s = length s.messages

abbrev pub memory_store : (List ℕ → ℕ → Bool) → IMessageStore MemoryMessageStore
memory_store grants = record {
  store = store grants;
  retrieve = retrieve;
  retrieve_range = retrieve_range;
  set_next_sender_seq_num = λ s seq. record s { next_sender_seq = seq };
  set_next_target_seq_num = λ s seq. record s { next_target_seq = seq };
  get_next_sender_seq_num = λ s. s.next_sender_seq;
  get_next_target_seq_num = λ s. s.next_target_seq;
  reset = reset;
}
