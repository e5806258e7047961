-- ===== src/Memory/Spsc/Window.antt =====
-- The elements between two indices of a ring of `size` slots, and what a step of an index or a write
-- to a slot does to them.
use nexus_fix.Base.{
  ℕ, zero, suc, ◌+◌, ◌-◌, ◌^◌, ◌≤◌, ◌<◌, ◌≡◌, refl, sym, ap, ◌∙◌, ◌≢◌, List, [], ◌∷◌, ◌++◌, leb,
  ◌==◌, if◌then◌else◌, length, get_or, set, get_or-set_ne, arith,
}
use mathlib.Core.Path.{ap₂}
use nexus_fix.Base.Masks.{bit_and_mask}
use nexus_fix.Memory.Spsc.{advance}
use native.Mathlib.Nat.{mod-eq_of_lt, mod_self}

-- The slot behind slot `i`.
abbrev pub after : ℕ → ℕ → ℕ
after size i = if i + 1 == size then 0 else i + 1

pub advance-after :
    {A : Type 0} (k : ℕ) (blank : A) (i : ℕ) → i < 2 ^ k → advance k blank i ≡ after (2 ^ k) i
unfolding advance
advance-after k blank i h =
    bit_and_mask k (i + 1) ∙ ground (arith, mod-eq_of_lt {n = i + 1} {m = 2 ^ k}, mod_self (2 ^ k))

-- How many slots the index `b` is ahead of the index `a`.
abbrev pub distance : ℕ → ℕ → ℕ → ℕ
distance size a b = if leb a b then b - a else b + size - a

pub after-lt : (size i : ℕ) → i < size → after size i < size
after-lt size i h = ground arith

pub distance-lt : (size a b : ℕ) → a < size → b < size → distance size a b < size
distance-lt size a b ha hb = ground arith

pub distance_eq : (size a b : ℕ) → a ≡ b → distance size a b ≡ 0
distance_eq size a b h = ground arith

-- One slot always stays free.
pub distance_full :
    (size a b : ℕ) → a < size → b < size → after size b ≡ a → distance size a b ≡ size - 1
distance_full size a b ha hb h = ground arith

pub distance_room :
    (size a b : ℕ) → a < size → b < size → after size b ≢ a → distance size a b < size - 1
distance_room size a b ha hb h = ground arith

pub distance_ne : (size a b : ℕ) → 1 ≤ distance size a b → a ≢ b
distance_ne size a b h = ground arith

pub distance_zero : (size a b : ℕ) → a < size → b < size → distance size a b ≡ 0 → a ≡ b
distance_zero size a b ha hb h = ground arith

pub distance-after_right :
    (size a b : ℕ)
    → a < size
    → b < size
    → after size b ≢ a
    → distance size a (after size b) ≡ distance size a b + 1
distance-after_right size a b ha hb h = ground arith

pub distance-after_left :
    (size a b : ℕ)
    → a < size
    → b < size
    → a ≢ b
    → distance size (after size a) b + 1 ≡ distance size a b
distance-after_left size a b ha hb h = ground arith

module _ {A : Type 0} (blank : A) (size : ℕ) where
  -- The `n` elements from slot `i` on.
  abbrev pub window : List A → ℕ → ℕ → List A
  window buffer i zero = []
  window buffer i (suc n) = get_or buffer i blank ∷ window buffer (after size i) n

  pub length-window : (buffer : List A) (i n : ℕ) → length (window buffer i n) ≡ n
  length-window buffer i zero = refl
  length-window buffer i (suc n) = ap suc (length-window buffer (after size i) n)

  -- A write to slot `j` leaves a window that ends at or before `j` alone.
  pub window-set :
      (buffer : List A) (i j n : ℕ) (x : A)
      → i < size
      → j < size
      → n ≤ distance size i j
      → window (set buffer j x) i n ≡ window buffer i n
  window-set buffer i j zero x hi hj h = refl
  window-set buffer i j (suc n) x hi hj h =
      let apart : i ≢ j = distance_ne size i j (omega arith) in
      ap₂ ◌∷◌ (get_or-set_ne buffer j i x blank (λ e. apart (sym e))) (
        window-set buffer (after size i) j n x (after-lt size i hi) hj
          (omega (arith, distance-after_left size i j hi hj apart)))

  -- The window up to `j` and the element at `j`.
  pub window-snoc :
      (buffer : List A) (i j n : ℕ)
      → i < size
      → j < size
      → distance size i j ≡ n
      → window buffer i (suc n) ≡ window buffer i n ++ get_or buffer j blank ∷ []
  window-snoc buffer i j zero hi hj h =
      ap (λ t. get_or buffer t blank ∷ []) (distance_zero size i j hi hj h)
  window-snoc buffer i j (suc n) hi hj h =
      let apart : i ≢ j = distance_ne size i j (omega arith) in
      ap (◌∷◌ (get_or buffer i blank)) (
        window-snoc buffer (after size i) j n (after-lt size i hi) hj
          (omega (arith, distance-after_left size i j hi hj apart)))
