-- ===== src/Memory/Spsc.antt =====
-- include/nexusfix/memory/spsc_queue.hpp, SPSCQueue. Each access to a variable that the two threads
-- share is one step, and what a thread is about to do is kept beside the queue, so that a run is any
-- interleaving of the steps of one producer and one consumer. The steps are taken in one order, as the
-- acquire and release accesses to `head_` and `tail_` order them. `try_push` is the copying, the moving
-- and the emplacing one alike: these differ only in how the element gets into its slot. `k` is the
-- binary logarithm of `Capacity`, and `blank` the element that `buffer_` is filled with at first.
pub mod Window
pub mod Sound
pub mod Steps
pub mod Refine
pub mod Status
pub mod Progress
use Prim.Native.Nat.{bit_and}
use nexus_fix.Base.{
  ℕ, ◌+◌, ◌-◌, ◌^◌, Bool, List, [], ◌∷◌, Option, none, some, ◌==◌, if◌then◌else◌, get_or, set,
  replicate,
}
use nexus_fix.Base.Words.{sub64}

pub record Queue (A : Type 0) : Type 0 where
  pub head : ℕ
  pub cached_tail : ℕ
  pub tail : ℕ
  pub cached_head : ℕ
  pub buffer : List A

-- Where the producer is in `try_push(item)`: outside, about to load `tail_`, about to write the slot,
-- or about to store `head_`.
pub data Pushing (A : Type 0) : Type 0 where
  idle : Pushing A
  loading : A → Pushing A
  writing : A → Pushing A
  publishing : A → Pushing A

-- Where the consumer is in `try_pop`: outside, about to load `head_`, about to read the slot, or about
-- to store `tail_` with the element that it read.
pub data Popping (A : Type 0) : Type 0 where
  idle : Popping A
  loading : Popping A
  reading : Popping A
  releasing : A → Popping A

pub record Machine (A : Type 0) : Type 0 where
  pub queue : Queue A
  pub producer : Pushing A
  pub consumer : Popping A

-- What a call returned.
pub data Event (A : Type 0) : Type 0 where
  pushed : A → Event A
  full : Event A
  popped : A → Event A
  empty : Event A

-- One step of a schedule: a thread calls `try_push` or `try_pop`, or goes on with its call.
pub data Turn (A : Type 0) : Type 0 where
  call_push : A → Turn A
  producer : Turn A
  call_pop : Turn A
  consumer : Turn A

module _ {A : Type 0} (k : ℕ) (blank : A) where
  abbrev pub size : ℕ
  size = 2 ^ k

  abbrev pub mask : ℕ
  mask = size - 1

  abbrev pub capacity : ℕ
  capacity = size - 1

  -- `(index + 1) & mask_`
  unfoldable pub advance : ℕ → ℕ
  advance i = bit_and (i + 1) mask

  abbrev pub new_queue : Queue A
  new_queue = record {
    head = 0;
    cached_tail = 0;
    tail = 0;
    cached_head = 0;
    buffer = replicate size blank;
  }

  abbrev pub new_machine : Machine A
  new_machine = record { queue = new_queue; producer = Pushing.idle; consumer = Popping.idle }

  -- The steps of `try_push`.
  unfoldable pub push_step : Machine A → Pushing A → Option (Event A) × Machine A
  push_step m Pushing.idle = (none, m)
  push_step m (Pushing.loading x) =
      let q = record m.queue { cached_tail = m.queue.tail } in
      if advance q.head == q.cached_tail
      then (some Event.full, record m { queue = q; producer = Pushing.idle })
      else (none, record m { queue = q; producer = Pushing.writing x })
  push_step m (Pushing.writing x) = (
    none,
    record m {
      queue = record m.queue { buffer = set m.queue.buffer m.queue.head x };
      producer = Pushing.publishing x;
    },
  )
  push_step m (Pushing.publishing x) = (
    some (Event.pushed x),
    record m { queue = record m.queue { head = advance m.queue.head }; producer = Pushing.idle },
  )

  -- The beginning of `try_push`, up to the first access to a variable of the consumer.
  unfoldable pub begin_push : A → Machine A → Machine A
  begin_push x m =
      if advance m.queue.head == m.queue.cached_tail
      then record m { producer = Pushing.loading x }
      else record m { producer = Pushing.writing x }

  -- The steps of `try_pop`.
  unfoldable pub pop_step : Machine A → Popping A → Option (Event A) × Machine A
  pop_step m Popping.idle = (none, m)
  pop_step m Popping.loading =
      let q = record m.queue { cached_head = m.queue.head } in
      if q.tail == q.cached_head
      then (some Event.empty, record m { queue = q; consumer = Popping.idle })
      else (none, record m { queue = q; consumer = Popping.reading })
  pop_step m Popping.reading =
      (none, record m { consumer = Popping.releasing (get_or m.queue.buffer m.queue.tail blank) })
  pop_step m (Popping.releasing x) = (
    some (Event.popped x),
    record m { queue = record m.queue { tail = advance m.queue.tail }; consumer = Popping.idle },
  )

  unfoldable pub begin_pop : Machine A → Machine A
  begin_pop m =
      if m.queue.tail == m.queue.cached_head
      then record m { consumer = Popping.loading }
      else record m { consumer = Popping.reading }

  -- A thread that is inside a call cannot begin another one.
  unfoldable pub enter_push : A → Machine A → Pushing A → Machine A
  enter_push x m Pushing.idle = begin_push x m
  enter_push x m _ = m

  unfoldable pub enter_pop : Machine A → Popping A → Machine A
  enter_pop m Popping.idle = begin_pop m
  enter_pop m _ = m

  unfoldable pub step : Turn A → Machine A → Option (Event A) × Machine A
  step (Turn.call_push x) m = (none, enter_push x m m.producer)
  step Turn.producer m = push_step m m.producer
  step Turn.call_pop m = (none, enter_pop m m.consumer)
  step Turn.consumer m = pop_step m m.consumer

  abbrev pub emit : Option (Event A) → List (Event A) → List (Event A)
  emit none es = es
  emit (some e) es = e ∷ es

  -- The results of the calls of a schedule, in the order in which the calls return.
  unfoldable pub run : List (Turn A) → Machine A → List (Event A) × Machine A
  run [] m = ([], m)
  run (t ∷ ts) m = let (e, m') = step t m in let (es, m'') = run ts m' in (emit e es, m'')

  -- The queries of the state, each load in turn with no step of the other thread between them.
  unfoldable pub front : Queue A → Option A
  front q = if q.tail == q.head then none else some (get_or q.buffer q.tail blank)

  abbrev pub is_empty_queue : Queue A → Bool
  is_empty_queue q = q.head == q.tail

  unfoldable pub size_approx : Queue A → ℕ
  size_approx q = bit_and (sub64 q.head q.tail) mask

  unfoldable pub is_full : Queue A → Bool
  is_full q = advance q.head == q.tail
