-- ===== src/Memory/Spsc/Status.antt =====
-- The queries of a queue that no step is under way in.
use nexus_fix.Base.{
  ℕ, zero, suc, ◌+◌, ◌-◌, ◌*◌, ◌%◌, ◌^◌, ◌≤◌, ◌<◌, ◌≡◌, refl, sym, ap, ◌∙◌, List, [], ◌∷◌, Option,
  none, some, length, ◌==◌, if◌then◌else◌, get_or, arith,
}
use nexus_fix.Base.Masks.{bit_and_mask, positive_power, pow-add}
use nexus_fix.Base.Words.{sub64}
use nexus_fix.Memory.Spsc.{Queue, capacity, front, is_empty_queue, is_full, size_approx}
use nexus_fix.Memory.Spsc.Window.{distance, window, length-window, advance-after}
use nexus_fix.Memory.Spsc.Sound.{IsRing, contents, ahead}
use native.Mathlib.Nat.{
  mod-eq_of_lt, mod-eq-sub-mod, add-mul-mod_self_right, dvd-mul_left, suc-mul, mod-mod_of_dvd,
}

less_one : (x y : ℕ) → 1 ≤ x → (x - 1) * y + y ≡ x * y
less_one zero y h = absurd (omega arith)
less_one (suc x) y h =
    let same : suc x - 1 ≡ x = omega arith in rw same (omega (arith, suc-mul x y))

-- The difference of two indices of a ring, taken of `size_t` values.
masked_difference :
    (k j a b : ℕ)
    → k + j ≡ 64
    → a < 2 ^ k
    → b < 2 ^ k
    → (b + 2 ^ 64 - a) % 2 ^ 64 % 2 ^ k ≡ distance (2 ^ k) a b
masked_difference k j a b e ha hb =
    let n = b + 2 ^ 64 - a in
    let whole : 2 ^ 64 ≡ 2 ^ j * 2 ^ k = omega (arith, ap (λ i. 2 ^ i) e, pow-add 2 k j) in
    let split : n ≡ b + 2 ^ k - a + (2 ^ j - 1) * 2 ^ k =
      omega (arith, whole, less_one (2 ^ j) (2 ^ k) (positive_power j)) in
    mod-mod_of_dvd (2 ^ k) n (rw (← whole) at (dvd-mul_left (2 ^ k) (2 ^ j)))
    ∙ ap (λ t. t % 2 ^ k) split
    ∙ add-mul-mod_self_right (b + 2 ^ k - a) (2 ^ j - 1) (2 ^ k)
    ∙ ground (
      arith,
      mod-eq_of_lt {n = b + 2 ^ k - a} {m = 2 ^ k},
      mod-eq-sub-mod {n = b + 2 ^ k - a} {m = 2 ^ k},
      mod-eq_of_lt {n = b + 2 ^ k - a - 2 ^ k} {m = 2 ^ k},
    )

-- The first element of a list.
abbrev pub first : {A : Type 0} → List A → Option A
first [] = none
first (x ∷ xs) = some x

module _ {A : Type 0} (k : ℕ) (blank : A) (q : Queue A) where
  first-window :
      (i n : ℕ)
      → first (window blank (2 ^ k) q.buffer i n)
        ≡ (if n == 0 then none else some (get_or q.buffer i blank))
  first-window i zero = refl
  first-window i (suc n) = ground arith

  -- What the queries of a ring of at most 2^64 slots answer while no other step is taken: the
  -- number of elements, whether there is none, whether there is no room for one more, and the
  -- oldest element.
  pub queries_agree :
      k ≤ 64
      → IsRing k blank q.head q.cached_tail q.tail q.cached_head
      → (size_approx k blank q ≡ length (contents k blank q))
        × (is_empty_queue k blank q ≡ (length (contents k blank q) == 0))
        × (is_full k blank q ≡ (length (contents k blank q) == capacity k blank))
        × (front k blank q ≡ first (contents k blank q))
  unfolding size_approx is_full front
  queries_agree hk r =
      let size = length-window blank (2 ^ k) q.buffer q.tail (ahead k blank q.tail q.head) in
      (
        bit_and_mask k (sub64 q.head q.tail)
            ∙ masked_difference k (64 - k) q.tail q.head (omega arith) r.tail_fits r.head_fits
            ∙ sym size,
        rw size (ground arith),
        rw (size, advance-after k blank q.head r.head_fits) (ground (arith, positive_power k)),
        rw first-window (ground arith),
      )
