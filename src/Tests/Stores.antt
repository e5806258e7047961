-- ===== src/Tests/Stores.antt =====
-- The store of include/nexusfix/store/memory_message_store.hpp at work.
use nexus_fix.Base.{ℕ, ◌≡◌, refl, true, List, [], ◌∷◌, Bool, some, none, codes, arith}
use nexus_fix.Store.Memory.Capacity.{IsKept, WithinCount, store-IsKept, store-lookup}
use nexus_fix.Store.Memory.Range.{messages_from, retrieve_range-messages, retrieve_range_endless}
use nexus_fix.Store.Memory.{
  MemoryMessageStore, new_store, store, find, erase, evict_oldest_locked, insert_message, place,
  retrieve_range, range_loop, uint32_max,
}

-- A pool that serves every request.
abbrev grants_all : List ℕ → ℕ → Bool
grants_all served size = true

-- Room for two messages; the oldest makes room for a third.
abbrev empty_store : MemoryMessageStore
empty_store =
    new_store
      (record { max_messages = 2; max_bytes = 100; evict_oldest = true; pool_size_bytes = 64 })

empty-IsKept : IsKept empty_store
unfolding find
empty-IsKept = record {
  distinct = tt;
  fits = tt;
  bytes = refl;
  least = tt;
  found = λ e. cc;
  unset = λ e. refl;
}

abbrev one : MemoryMessageStore
one = (store grants_all empty_store 1 (codes "A")).1

abbrev two : MemoryMessageStore
two = (store grants_all one 2 (codes "BB")).1

one-IsKept : IsKept one × WithinCount one
one-IsKept =
    store-IsKept grants_all empty_store 1 (codes "A") empty-IsKept (omega arith) (omega arith)

two-IsKept : IsKept two × WithinCount two
two-IsKept = store-IsKept grants_all one 2 (codes "BB") one-IsKept.0 one-IsKept.1 (omega arith)

store-IsKept_example : IsKept two × WithinCount two
store-IsKept_example =
    store-IsKept grants_all one 2 (codes "BB") one-IsKept.0 one-IsKept.1 (omega arith)

-- The store is full: the message with the smallest number goes.
store-lookup_example : find 1 (store grants_all two 3 (codes "C")).1.messages ≡ none
unfolding store place insert_message find evict_oldest_locked erase
store-lookup_example = store-lookup grants_all two 3 1 (codes "C") two-IsKept.0 refl

retrieve_range-messages_example :
    (s' : MemoryMessageStore) × (retrieve_range two 1 0 ≡ some (codes "A" ∷ codes "BB" ∷ [], s'))
    × (s'.messages ≡ two.messages)
unfolding store place insert_message find messages_from
retrieve_range-messages_example = retrieve_range-messages two 1 0 (omega arith)

retrieve_range_endless_example : range_loop 1000 two.messages 1 uint32_max ≡ none
retrieve_range_endless_example = retrieve_range_endless two 1 uint32_max 1000 (omega arith) refl
