-- ===== src/Memory/Spsc/Progress.antt =====
-- A call returns after a fixed number of its thread's own steps, whatever the other thread does.
use nexus_fix.Base.{
  ℕ, suc, ◌≤◌, ◌≡◌, refl, ap, Bool, true, false, List, [], ◌∷◌, Option, ◌<◌, ◌⊎◌, none, some,
  Bool-cases, inl, inr, ◌==◌, any, arith,
}
use nexus_fix.Memory.Spsc.{
  Pushing, Popping, Machine, Event, Turn, push_step, begin_push, pop_step, begin_pop, enter_push,
  enter_pop, step, emit, run, advance,
}

-- Whether a result is one of `try_push`.
abbrev pub of_push : {A : Type 0} → Event A → Bool
of_push (Event.pushed x) = true
of_push Event.full = true
of_push _ = false

-- How often the producer goes on with its call in a schedule.
unfoldable pub producer_turns : {A : Type 0} → List (Turn A) → ℕ
producer_turns [] = 0
producer_turns (Turn.producer ∷ ts) = suc (producer_turns ts)
producer_turns (_ ∷ ts) = producer_turns ts

module _ {A : Type 0} (k : ℕ) (blank : A) where
  -- The steps that a call has before it at most, or none outside a call.
  abbrev push_rank : Pushing A → ℕ
  push_rank Pushing.idle = 0
  push_rank (Pushing.publishing x) = 1
  push_rank (Pushing.writing x) = 2
  push_rank (Pushing.loading x) = 3

  -- A step of the producer inside a call returns, or comes one step nearer to it.
  push_step_progress :
      (m : Machine A) (p : Pushing A)
      → 1 ≤ push_rank p
      → let (e, m') = push_step k blank m p in
        ((x : Event A) × (e ≡ some x) × (of_push x ≡ true))
        ⊎ ((1 ≤ push_rank m'.producer) × (push_rank m'.producer < push_rank p))
  unfolding push_step
  push_step_progress m Pushing.idle h = absurd (omega arith)
  push_step_progress m (Pushing.loading x) h =
      elim (Bool-cases (advance k blank m.queue.head == m.queue.tail)) [
        | inl e ↦ rw e (inl (Event.full, refl, refl))
        | inr e ↦ rw e (inr (omega arith, omega arith))
      ]
  push_step_progress m (Pushing.writing x) h = inr (omega arith, omega arith)
  push_step_progress m (Pushing.publishing x) h = inl (Event.pushed x, refl, refl)

  begin_pop-producer : (m : Machine A) → (begin_pop k blank m).producer ≡ m.producer
  unfolding begin_pop
  begin_pop-producer m = ground arith

  pop_step-producer :
      (m : Machine A) (p : Popping A) → (pop_step k blank m p).1.producer ≡ m.producer
  unfolding pop_step
  pop_step-producer m Popping.idle = refl
  pop_step-producer m Popping.loading = ground arith
  pop_step-producer m Popping.reading = refl
  pop_step-producer m (Popping.releasing x) = refl

  -- No other step touches a call of the producer that is under way.
  enter_push-producer :
      (x : A) (m : Machine A) (p : Pushing A)
      → 1 ≤ push_rank p
      → (enter_push k blank x m p).producer ≡ m.producer
  unfolding enter_push
  enter_push-producer x m Pushing.idle h = absurd (omega arith)
  enter_push-producer x m (Pushing.loading y) h = refl
  enter_push-producer x m (Pushing.writing y) h = refl
  enter_push-producer x m (Pushing.publishing y) h = refl

  enter_pop-producer :
      (m : Machine A) (p : Popping A) → (enter_pop k blank m p).producer ≡ m.producer
  unfolding enter_pop
  enter_pop-producer m Popping.idle = begin_pop-producer m
  enter_pop-producer m Popping.loading = refl
  enter_pop-producer m Popping.reading = refl
  enter_pop-producer m (Popping.releasing y) = refl

  emit-any :
      (e : Option (Event A)) (es : List (Event A))
      → any of_push es ≡ true
      → any of_push (emit k blank e es) ≡ true
  unfolding any
  emit-any none es h = h
  emit-any (some e) es h = ground arith

  push_returns_from :
      (ts : List (Turn A)) (m : Machine A)
      → 1 ≤ push_rank m.producer
      → push_rank m.producer ≤ producer_turns ts
      → any of_push (run k blank ts m).0 ≡ true
  unfolding run any producer_turns step
  push_returns_from [] m h1 h2 = absurd (omega arith)
  push_returns_from (Turn.call_push x ∷ ts) m h1 h2 =
      let same = ap push_rank (enter_push-producer x m m.producer h1) in
      push_returns_from ts (enter_push k blank x m m.producer) (omega arith) (omega arith)
  push_returns_from (Turn.producer ∷ ts) m h1 h2 = elim (push_step_progress m m.producer h1) [
    | inl (x, e, h) ↦ rw e (ground arith)
    | inr (h, nearer) ↦
        emit-any (push_step k blank m m.producer).0 _
          (push_returns_from ts (push_step k blank m m.producer).1 h (omega arith))
  ]
  push_returns_from (Turn.call_pop ∷ ts) m h1 h2 =
      let same = ap push_rank (enter_pop-producer m m.consumer) in
      push_returns_from ts (enter_pop k blank m m.consumer) (omega arith) (omega arith)
  push_returns_from (Turn.consumer ∷ ts) m h1 h2 =
      let same = ap push_rank (pop_step-producer m m.consumer) in
      emit-any (pop_step k blank m m.consumer).0 _
        (push_returns_from ts (pop_step k blank m m.consumer).1 (omega arith) (omega arith))

  begin_push_rank :
      (x : A) (m : Machine A)
      → (1 ≤ push_rank (begin_push k blank x m).producer)
        × (push_rank (begin_push k blank x m).producer ≤ 3)
  unfolding begin_push
  begin_push_rank x m = ground arith

  -- A call of `try_push` has returned once its thread has taken three more steps, whatever
  -- steps the consumer takes before, between and after them.
  pub push_returns :
      (x : A) (ts : List (Turn A)) (m : Machine A)
      → m.producer ≡ Pushing.idle
      → 3 ≤ producer_turns ts
      → any of_push (run k blank (Turn.call_push x ∷ ts) m).0 ≡ true
  unfolding run step enter_push begin_push
  push_returns x ts m e h =
      let (positive, small) = begin_push_rank x m in
      rw e (push_returns_from ts (begin_push k blank x m) positive (omega arith))
