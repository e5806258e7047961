-- ===== src/Memory/Spsc/Steps.antt =====
-- What one step of either thread does to the contents of the queue.
use nexus_fix.Base.{
  ℕ, suc, ◌^◌, ◌<◌, ◌≡◌, refl, ◌≢◌, List, [], ◌∷◌, ◌++◌, Option, none, some, length, ◌==◌, get_or,
  set, length-set, get_or-set_self, get_or-set_ne, arith, Bool-cases, inl, inr, ap, sym, ◌∙◌,
}
use nexus_fix.Memory.Spsc.{
  Queue, Pushing, Popping, Machine, Event, Turn, push_step, begin_push, pop_step, begin_pop,
  enter_push, enter_pop, step, capacity,
}
use nexus_fix.Memory.Spsc.Window.{
  window, length-window, window-set, window-snoc, advance-after, distance-after_left,
  distance-after_right, distance_eq, distance_full, distance_room,
}
use nexus_fix.Memory.Spsc.Sound.{
  IsRing, IsSound, CanPush, CanPop, contents, next, ahead, load_tail-IsRing, load_head-IsRing,
  room_left, apart, publish-IsRing, release-IsRing,
}

-- What one result of a call says of a queue of at most `limit` elements, before and after.
abbrev pub Allowed : {A : Type 0} → ℕ → Event A → List A → List A → Type 0
Allowed limit (Event.pushed x) q q' = (length q < limit) × (q' ≡ q ++ x ∷ [])
Allowed limit Event.full q q' = (length q ≡ limit) × (q' ≡ q)
Allowed limit (Event.popped x) q q' = q ≡ x ∷ q'
Allowed limit Event.empty q q' = (q ≡ []) × (q' ≡ [])

-- A step that returns nothing leaves the queue alone.
abbrev pub Follows : {A : Type 0} → ℕ → Option (Event A) → List A → List A → Type 0
Follows limit none q q' = q' ≡ q
Follows limit (some e) q q' = Allowed limit e q q'

-- The results, in order, are those of a bounded queue.
abbrev pub Behaves : {A : Type 0} → ℕ → List (Event A) → List A → List A → Type 0
Behaves limit [] q q' = q' ≡ q
Behaves {A = A} limit (e ∷ es) q q'' =
    (q' : List A) × Allowed limit e q q' × Behaves limit es q' q''

module _ {A : Type 0} (k : ℕ) (blank : A) where
  -- A step is right when it keeps what is sound and does to the contents what its result says.
  abbrev pub Right : Machine A → Option (Event A) × Machine A → Type 0
  Right m (e, m') =
      IsSound k blank m'
      × Follows (capacity k blank) e (contents k blank m.queue) (contents k blank m'.queue)

  length-contents : (q : Queue A) → length (contents k blank q) ≡ ahead k blank q.tail q.head
  length-contents q = length-window blank (2 ^ k) q.buffer q.tail (ahead k blank q.tail q.head)

  contents-publish :
      {h c t d : ℕ} (buffer : List A)
      → IsRing k blank h c t d
      → next k blank h ≢ c
      → window blank (2 ^ k) buffer t (ahead k blank t (next k blank h))
        ≡ window blank (2 ^ k) buffer t (ahead k blank t h) ++ get_or buffer h blank ∷ []
  contents-publish {h} {c} {t} buffer r room =
      let room' = room_left k blank r room in
      let longer : ahead k blank t (next k blank h) ≡ suc (ahead k blank t h) =
        omega (arith, distance-after_right (2 ^ k) t h r.tail_fits r.head_fits room') in
      ap (window blank (2 ^ k) buffer t) longer
      ∙ window-snoc blank (2 ^ k) buffer t h (ahead k blank t h) r.tail_fits r.head_fits refl

  contents-release :
      {h c t d : ℕ} (buffer : List A)
      → IsRing k blank h c t d
      → t ≢ d
      → window blank (2 ^ k) buffer t (ahead k blank t h)
        ≡ get_or buffer t blank
          ∷ window blank (2 ^ k) buffer (next k blank t) (ahead k blank (next k blank t) h)
  contents-release {h} {c} {t} buffer r held =
      let held' = apart k blank r held in
      let shorter : ahead k blank t h ≡ suc (ahead k blank (next k blank t) h) =
        omega (arith, distance-after_left (2 ^ k) t h r.tail_fits r.head_fits held') in
      ap (window blank (2 ^ k) buffer t) shorter

  -- The slot that the consumer reads keeps its element while the producer writes another.
  CanPop-write :
      {h c t d : ℕ} (buffer : List A) (x : A) (p : Popping A)
      → IsRing k blank h c t d
      → CanPop k blank t d buffer p
      → CanPop k blank t d (set buffer h x) p
  CanPop-write buffer x Popping.idle r p = tt
  CanPop-write buffer x Popping.loading r p = tt
  CanPop-write buffer x Popping.reading r p = p
  CanPop-write {h} {c} {t} buffer x (Popping.releasing y) r (held, e) =
      (held, get_or-set_ne buffer h t x blank (λ f. apart k blank r held (sym f)) ∙ e)

  push_step-Right :
      (m : Machine A) (p : Pushing A)
      → IsSound k blank m
      → CanPush k blank m.queue.head m.queue.cached_tail m.queue.buffer p
      → Right m (push_step k blank m p)
  unfolding push_step
  push_step-Right m Pushing.idle s c = (s, refl)
  push_step-Right m (Pushing.loading x) s c =
      let q = m.queue in
      let ring = load_tail-IsRing k blank s.ring in
      rw (advance-after k blank q.head s.ring.head_fits)
        (elim (Bool-cases (next k blank q.head == q.tail)) [
          | inl e ↦ rw e (
            record { slots = s.slots; ring = ring; can_push = tt; can_pop = s.can_pop },
            (
              length-contents q
                  ∙ distance_full (2 ^ k) q.tail q.head s.ring.tail_fits s.ring.head_fits
                      (ground arith),
              refl,
            ),
          )
          | inr e ↦ rw e (
            record { slots = s.slots; ring = ring; can_push = ground arith; can_pop = s.can_pop },
            refl,
          )
        ])
  push_step-Right m (Pushing.writing x) s c =
      let q = m.queue in
      (
        record {
          slots = length-set q.buffer q.head x ∙ s.slots;
          ring = s.ring;
          can_push = (
            c,
            get_or-set_self q.buffer q.head x blank (omega (arith, s.slots, s.ring.head_fits)),
          );
          can_pop = CanPop-write q.buffer x m.consumer s.ring s.can_pop;
        },
        window-set blank (2 ^ k) q.buffer q.tail q.head (ahead k blank q.tail q.head) x
            s.ring.tail_fits s.ring.head_fits (omega arith),
      )
  push_step-Right m (Pushing.publishing x) s (room, e) =
      let q = m.queue in
      rw (advance-after k blank q.head s.ring.head_fits) (
        record {
          slots = s.slots;
          ring = publish-IsRing k blank s.ring room;
          can_push = tt;
          can_pop = s.can_pop;
        },
        (
          rw (length-contents q) (
              distance_room (2 ^ k) q.tail q.head s.ring.tail_fits s.ring.head_fits
                (room_left k blank s.ring room)),
          contents-publish q.buffer s.ring room ∙ rw e refl,
        ),
      )

  pop_step-Right :
      (m : Machine A) (p : Popping A)
      → IsSound k blank m
      → CanPop k blank m.queue.tail m.queue.cached_head m.queue.buffer p
      → Right m (pop_step k blank m p)
  unfolding pop_step
  pop_step-Right m Popping.idle s c = (s, refl)
  pop_step-Right m Popping.loading s c =
      let q = m.queue in
      let ring = load_head-IsRing k blank s.ring in
      elim (Bool-cases (q.tail == q.head)) [
        | inl e ↦
            let nothing =
              ap (window blank (2 ^ k) q.buffer q.tail)
                (distance_eq (2 ^ k) q.tail q.head (ground arith)) in
            rw e (
              record { slots = s.slots; ring = ring; can_push = s.can_push; can_pop = tt },
              (nothing, nothing),
            )
        | inr e ↦ rw e (
          record { slots = s.slots; ring = ring; can_push = s.can_push; can_pop = ground arith },
          refl,
        )
      ]
  pop_step-Right m Popping.reading s c =
      (record { slots = s.slots; ring = s.ring; can_push = s.can_push; can_pop = (c, refl) }, refl)
  pop_step-Right m (Popping.releasing x) s (held, e) =
      let q = m.queue in
      rw (advance-after k blank q.tail s.ring.tail_fits) (
        record {
          slots = s.slots;
          ring = release-IsRing k blank s.ring held;
          can_push = s.can_push;
          can_pop = tt;
        },
        contents-release q.buffer s.ring held ∙ rw e refl,
      )

  begin_push-Right :
      (x : A) (m : Machine A) → IsSound k blank m → Right m (none, begin_push k blank x m)
  unfolding begin_push
  begin_push-Right x m s =
      let q = m.queue in
      rw (advance-after k blank q.head s.ring.head_fits)
        (elim (Bool-cases (next k blank q.head == q.cached_tail)) [
          | inl e ↦
              rw e (
                record { slots = s.slots; ring = s.ring; can_push = tt; can_pop = s.can_pop },
                refl,
              )
          | inr e ↦ rw e (
            record { slots = s.slots; ring = s.ring; can_push = ground arith; can_pop = s.can_pop },
            refl,
          )
        ])

  begin_pop-Right : (m : Machine A) → IsSound k blank m → Right m (none, begin_pop k blank m)
  unfolding begin_pop
  begin_pop-Right m s = elim (Bool-cases (m.queue.tail == m.queue.cached_head)) [
    | inl e ↦
        rw e (record { slots = s.slots; ring = s.ring; can_push = s.can_push; can_pop = tt }, refl)
    | inr e ↦ rw e (
      record { slots = s.slots; ring = s.ring; can_push = s.can_push; can_pop = ground arith },
      refl,
    )
  ]

  enter_push-Right :
      (x : A) (m : Machine A) (p : Pushing A)
      → IsSound k blank m
      → Right m (none, enter_push k blank x m p)
  unfolding enter_push
  enter_push-Right x m Pushing.idle s = begin_push-Right x m s
  enter_push-Right x m (Pushing.loading y) s = (s, refl)
  enter_push-Right x m (Pushing.writing y) s = (s, refl)
  enter_push-Right x m (Pushing.publishing y) s = (s, refl)

  enter_pop-Right :
      (m : Machine A) (p : Popping A) → IsSound k blank m → Right m (none, enter_pop k blank m p)
  unfolding enter_pop
  enter_pop-Right m Popping.idle s = begin_pop-Right m s
  enter_pop-Right m Popping.loading s = (s, refl)
  enter_pop-Right m Popping.reading s = (s, refl)
  enter_pop-Right m (Popping.releasing y) s = (s, refl)

  pub step-Right : (t : Turn A) (m : Machine A) → IsSound k blank m → Right m (step k blank t m)
  unfolding step
  step-Right (Turn.call_push x) m s = enter_push-Right x m m.producer s
  step-Right Turn.producer m s = push_step-Right m m.producer s s.can_push
  step-Right Turn.call_pop m s = enter_pop-Right m m.consumer s
  step-Right Turn.consumer m s = pop_step-Right m m.consumer s s.can_pop
