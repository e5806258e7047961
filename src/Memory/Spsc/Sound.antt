-- ===== src/Memory/Spsc/Sound.antt =====
-- What holds between any two steps of the producer and the consumer.
use nexus_fix.Base.{ℕ, ◌^◌, ◌≤◌, ◌<◌, ◌≡◌, ◌≢◌, List, length, get_or, length-replicate, arith}
use nexus_fix.Base.Masks.{positive_power}
use nexus_fix.Memory.Spsc.{Queue, Pushing, Popping, Machine, new_machine}
use nexus_fix.Memory.Spsc.Window.{after, distance, window}

module _ {A : Type 0} (k : ℕ) (blank : A) where
  abbrev pub next : ℕ → ℕ
  next = after (2 ^ k)

  abbrev pub ahead : ℕ → ℕ → ℕ
  ahead = distance (2 ^ k)

  -- The indices stay inside the buffer. What the producer has cached of `tail_` is behind it, and what
  -- the consumer has cached of `head_` is no further ahead than it.
  pub record IsRing (head cached_tail tail cached_head : ℕ) : Type 0 where
    pub head_fits : head < 2 ^ k
    pub cached_tail_fits : cached_tail < 2 ^ k
    pub tail_fits : tail < 2 ^ k
    pub cached_head_fits : cached_head < 2 ^ k
    pub producer_view : ahead tail head ≤ ahead cached_tail head
    pub consumer_view : ahead tail cached_head ≤ ahead tail head

  -- A producer past its test has room, and a producer about to store `head_` has written its slot.
  abbrev pub CanPush : (head cached_tail : ℕ) (buffer : List A) → Pushing A → Type 0
  CanPush head cached_tail buffer Pushing.idle = Unit {0}
  CanPush head cached_tail buffer (Pushing.loading x) = Unit {0}
  CanPush head cached_tail buffer (Pushing.writing x) = next head ≢ cached_tail
  CanPush head cached_tail buffer (Pushing.publishing x) =
      (next head ≢ cached_tail) × (get_or buffer head blank ≡ x)

  -- A consumer past its test has an element, and a consumer about to store `tail_` has read it.
  abbrev pub CanPop : (tail cached_head : ℕ) (buffer : List A) → Popping A → Type 0
  CanPop tail cached_head buffer Popping.idle = Unit {0}
  CanPop tail cached_head buffer Popping.loading = Unit {0}
  CanPop tail cached_head buffer Popping.reading = tail ≢ cached_head
  CanPop tail cached_head buffer (Popping.releasing x) =
      (tail ≢ cached_head) × (get_or buffer tail blank ≡ x)

  pub record IsSound (m : Machine A) : Type 0 where
    pub slots : length m.queue.buffer ≡ 2 ^ k
    pub ring : IsRing m.queue.head m.queue.cached_tail m.queue.tail m.queue.cached_head
    pub can_push : CanPush m.queue.head m.queue.cached_tail m.queue.buffer m.producer
    pub can_pop : CanPop m.queue.tail m.queue.cached_head m.queue.buffer m.consumer

  -- The elements that are pushed and not yet popped, oldest first.
  abbrev pub contents : Queue A → List A
  contents q = window blank (2 ^ k) q.buffer q.tail (ahead q.tail q.head)

  pub new_machine-IsSound : IsSound (new_machine k blank)
  new_machine-IsSound = record {
    slots = length-replicate (2 ^ k) blank;
    ring = record {
      head_fits = omega (arith, positive_power k);
      tail_fits = omega (arith, positive_power k);
      cached_tail_fits = omega (arith, positive_power k);
      cached_head_fits = omega (arith, positive_power k);
      producer_view = omega arith;
      consumer_view = omega arith;
    };
    can_push = tt;
    can_pop = tt;
  }

  module _ {h c t d : ℕ} (r : IsRing h c t d) where
    -- The loads of the other thread's index.
    pub load_tail-IsRing : IsRing h t t d
    load_tail-IsRing = record {
      head_fits = r.head_fits;
      cached_tail_fits = r.tail_fits;
      tail_fits = r.tail_fits;
      cached_head_fits = r.cached_head_fits;
      producer_view = omega arith;
      consumer_view = r.consumer_view;
    }

    pub load_head-IsRing : IsRing h c t h
    load_head-IsRing = record {
      head_fits = r.head_fits;
      cached_tail_fits = r.cached_tail_fits;
      tail_fits = r.tail_fits;
      cached_head_fits = r.head_fits;
      producer_view = r.producer_view;
      consumer_view = omega arith;
    }

    -- With room to push, the producer's index does not run into the consumer's.
    pub room_left : next h ≢ c → next h ≢ t
    room_left room = ground arith

    -- With an element to pop, the slot that the producer writes is not the consumer's.
    pub apart : t ≢ d → t ≢ h
    apart held = ground arith

    pub publish-IsRing : next h ≢ c → IsRing (next h) c t d
    publish-IsRing room = record {
      head_fits = ground arith;
      cached_tail_fits = r.cached_tail_fits;
      tail_fits = r.tail_fits;
      cached_head_fits = r.cached_head_fits;
      producer_view = ground arith;
      consumer_view = ground arith;
    }

    pub release-IsRing : t ≢ d → IsRing h c (next t) d
    release-IsRing held = record {
      head_fits = r.head_fits;
      cached_tail_fits = r.cached_tail_fits;
      tail_fits = ground arith;
      cached_head_fits = r.cached_head_fits;
      producer_view = ground arith;
      consumer_view = ground arith;
    }
