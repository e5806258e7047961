-- ===== src/Memory/Spsc/Refine.antt =====
-- Every interleaving of a producer and a consumer behaves as a bounded first-in-first-out queue.
use nexus_fix.Base.{ℕ, ◌≡◌, refl, List, [], ◌∷◌, ◌++◌, Option, none, some, ap, sym, subst, ◌∙◌}
use mathlib.Core.List.{append-nil, append_assoc}
use nexus_fix.Memory.Spsc.{Machine, Event, Turn, step, emit, run, capacity, new_machine}
use nexus_fix.Memory.Spsc.Sound.{IsSound, contents, new_machine-IsSound}
use nexus_fix.Memory.Spsc.Steps.{Behaves, Follows, step-Right}

module _ {A : Type 0} (k : ℕ) (blank : A) where
  follow :
      (limit : ℕ) (e : Option (Event A)) (es : List (Event A)) (q q' q'' : List A)
      → Follows limit e q q'
      → Behaves limit es q' q''
      → Behaves limit (emit k blank e es) q q''
  follow limit none es q q' q'' same b = subst (λ u. Behaves limit es u q'') same b
  follow limit (some e) es q q' q'' allowed b = (q', allowed, b)

  -- Whatever the order in which the steps of one producer and one consumer are taken, from a
  -- state that is sound the calls return what a first-in-first-out queue of the contents with
  -- room for one element less than the buffer has slots would return, and the contents at the
  -- end are that queue's.
  pub run_refines :
      (ts : List (Turn A)) (m : Machine A)
      → IsSound k blank m
      → let (es, m') = run k blank ts m in
        Behaves (capacity k blank) es (contents k blank m.queue) (contents k blank m'.queue)
  unfolding run
  run_refines [] m s = refl
  run_refines (t ∷ ts) m s =
      let (s', f) = step-Right k blank t m s in
      follow _ (step k blank t m).0 _ _ _ _ f (run_refines ts (step k blank t m).1 s')

  pub run-IsSound :
      (ts : List (Turn A)) (m : Machine A)
      → IsSound k blank m
      → IsSound k blank (run k blank ts m).1
  unfolding run
  run-IsSound [] m s = s
  run-IsSound (t ∷ ts) m s = run-IsSound ts (step k blank t m).1 (step-Right k blank t m s).0

-- The elements that calls pushed, and those that calls popped, in the order of the calls' returns.
unfoldable pub all_pushed : {A : Type 0} → List (Event A) → List A
all_pushed [] = []
all_pushed (Event.pushed x ∷ es) = x ∷ all_pushed es
all_pushed (_ ∷ es) = all_pushed es

unfoldable pub all_popped : {A : Type 0} → List (Event A) → List A
all_popped [] = []
all_popped (Event.popped x ∷ es) = x ∷ all_popped es
all_popped (_ ∷ es) = all_popped es

Behaves-fifo :
    {A : Type 0} (limit : ℕ) (es : List (Event A)) (q q' : List A)
    → Behaves limit es q q'
    → q ++ all_pushed es ≡ all_popped es ++ q'
unfolding all_pushed all_popped
Behaves-fifo limit [] q q' b = append-nil q ∙ sym b
Behaves-fifo limit (Event.pushed x ∷ es) q q' (q1, (h, e), b) =
    sym (append_assoc q (x ∷ []) _) ∙ rw (sym e) (Behaves-fifo limit es q1 q' b)
Behaves-fifo limit (Event.full ∷ es) q q' (q1, (h, e), b) =
    rw (sym e) (Behaves-fifo limit es q1 q' b)
Behaves-fifo limit (Event.popped x ∷ es) q q' (q1, e, b) =
    rw e (ap (◌∷◌ x) (Behaves-fifo limit es q1 q' b))
Behaves-fifo limit (Event.empty ∷ es) q q' (q1, (e, f), b) =
    rw e (rw f at (Behaves-fifo limit es q1 q' b))

-- What was pushed into a new queue is, in order, what was popped from it and then what is left
-- in it, whatever the order in which the steps of the producer and the consumer are taken.
pub run-fifo :
    {A : Type 0} (k : ℕ) (blank : A) (ts : List (Turn A))
    → let (es, m) = run k blank ts (new_machine k blank) in
      all_pushed es ≡ all_popped es ++ contents k blank m.queue
run-fifo k blank ts =
    Behaves-fifo (capacity k blank) (run k blank ts (new_machine k blank)).0 [] _
      (run_refines k blank ts (new_machine k blank) (new_machine-IsSound k blank))
