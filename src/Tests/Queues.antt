-- ===== src/Tests/Queues.antt =====
-- The queue of include/nexusfix/memory/spsc_queue.hpp at work, with four slots.
use nexus_fix.Base.{ℕ, ◌≡◌, refl, true, List, [], ◌∷◌, ◌++◌, any, length, ◌==◌, arith}
use nexus_fix.Memory.Spsc.{
  Machine, Event, Turn, Queue, new_machine, run, step, push_step, begin_push, pop_step, begin_pop,
  enter_push, enter_pop, advance, size_approx, is_empty_queue, is_full, front, capacity,
}
use nexus_fix.Memory.Spsc.Sound.{contents, new_machine-IsSound}
use nexus_fix.Memory.Spsc.Steps.{Behaves}
use nexus_fix.Memory.Spsc.Refine.{run_refines, run-fifo, run-IsSound, all_pushed, all_popped}
use nexus_fix.Memory.Spsc.Status.{first, queries_agree}
use nexus_fix.Memory.Spsc.Progress.{of_push, producer_turns, push_returns}

-- A push that the consumer overtakes with an attempt of its own, then a pop.
abbrev overtaking : List (Turn ℕ)
overtaking =
    Turn.call_push 7
    ∷ Turn.call_pop
    ∷ Turn.producer
    ∷ Turn.consumer
    ∷ Turn.producer
    ∷ Turn.call_push 8
    ∷ Turn.call_pop
    ∷ Turn.consumer
    ∷ Turn.consumer
    ∷ Turn.consumer
    ∷ Turn.producer
    ∷ Turn.producer
    ∷ []

-- Five pushes into four slots: the last two find the queue full.
abbrev filling : List (Turn ℕ)
filling =
    Turn.call_push 1
    ∷ Turn.producer
    ∷ Turn.producer
    ∷ Turn.call_push 2
    ∷ Turn.producer
    ∷ Turn.producer
    ∷ Turn.call_push 3
    ∷ Turn.producer
    ∷ Turn.producer
    ∷ Turn.call_push 4
    ∷ Turn.producer
    ∷ []

abbrev start : Machine ℕ
start = new_machine 2 0

overtaking_events :
    (run 2 0 overtaking start).0
    ≡ Event.empty ∷ Event.pushed 7 ∷ Event.popped 7 ∷ Event.pushed 8 ∷ []
unfolding run step push_step begin_push pop_step begin_pop enter_push enter_pop advance
overtaking_events = refl

filling_events :
    (run 2 0 filling start).0 ≡ Event.pushed 1 ∷ Event.pushed 2 ∷ Event.pushed 3 ∷ Event.full ∷ []
unfolding run step push_step begin_push pop_step begin_pop enter_push enter_pop advance
filling_events = refl

run_refines_example :
    Behaves 3 (run 2 0 overtaking start).0 [] (contents 2 0 (run 2 0 overtaking start).1.queue)
run_refines_example = run_refines 2 0 overtaking start (new_machine-IsSound 2 0)

run-fifo_example :
    all_pushed (run 2 0 overtaking start).0
    ≡ all_popped (run 2 0 overtaking start).0 ++ contents 2 0 (run 2 0 overtaking start).1.queue
run-fifo_example = run-fifo 2 0 overtaking

abbrev filled : Queue ℕ
filled = (run 2 0 filling start).1.queue

queries_agree_example :
    (size_approx 2 0 filled ≡ length (contents 2 0 filled))
    × (is_empty_queue 2 0 filled ≡ (length (contents 2 0 filled) == 0))
    × (is_full 2 0 filled ≡ (length (contents 2 0 filled) == capacity {A = ℕ} 2 0))
    × (front 2 0 filled ≡ first (contents 2 0 filled))
queries_agree_example =
    queries_agree 2 0 filled (omega arith)
      (run-IsSound 2 0 filling start (new_machine-IsSound 2 0)).ring

push_returns_example :
    any of_push
      (run 2 0
        (Turn.call_push 5 ∷ Turn.producer ∷ Turn.call_pop ∷ Turn.producer ∷ Turn.producer ∷ [])
        start).0
    ≡ true
unfolding producer_turns
push_returns_example =
    push_returns 2 0 5 (Turn.producer ∷ Turn.call_pop ∷ Turn.producer ∷ Turn.producer ∷ []) start
      refl (omega arith)
