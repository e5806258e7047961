-- ===== src/Parser/Timestamp/Lanes.antt =====
-- The masks of include/nexusfix/parser/timestamp_parser.hpp: which of the bytes that a mask selects fail.
use Prim.Native.Nat.{bit_and, bit_or, digits, min, max, bit_or-bitwise, bit_and-bitwise}
use nexus_fix.Base.{
  ℕ, zero, suc, ◌+◌, ◌*◌, ◌/◌, ◌%◌, ◌≤◌, ◌<◌, ◌≡◌, refl, ◌∙◌, Bool, true, false, not, ◌&&◌, ◌||◌,
  List, [], ◌∷◌, arith, ◌==◌, length,
}
use nexus_fix.Base.Masks.{halve}
use nexus_fix.Parser.Vector.{mask_of}

or_digits :
    (n m a b : ℕ)
    → a ≤ n
    → a ≤ m
    → digits (λ (c : ℕ). c) max n a b ≡ digits (λ (c : ℕ). c) max m a b
or_digits zero zero zero b _ _ = refl
or_digits (suc n) zero zero b _ _ = refl
or_digits zero (suc m) zero b _ _ = refl
or_digits (suc n) (suc m) zero b _ _ = refl
or_digits zero m (suc a) b h _ = absurd (omega arith)
or_digits (suc n) zero (suc a) b _ h = absurd (omega arith)
or_digits (suc n) (suc m) (suc a) b h h' =
    let half = or_digits n m (suc a / 2) (b / 2) (omega arith) (omega arith) in omega (arith, half)

halve_or : (a b : ℕ) → bit_or a b ≡ bit_or (a / 2) (b / 2) * 2 + max (a % 2) (b % 2)
halve_or zero b = omega (arith, bit_or-bitwise 0 b, bit_or-bitwise 0 (b / 2))
halve_or (suc a) b = omega (
  arith,
  bit_or-bitwise (suc a) b,
  bit_or-bitwise (suc a / 2) (b / 2),
  or_digits a (suc a / 2) (suc a / 2) (b / 2) (omega arith) (omega arith),
)

-- Whether some byte that the mask selects has its bit set in one of two masks.
unfoldable pub selected : List Bool → List Bool → ℕ → Bool
selected [] ns mask = false
selected (g ∷ gs) [] mask = false
selected (g ∷ gs) (n ∷ ns) mask = mask % 2 == 1 && (g || n) || selected gs ns (mask / 2)

bit : Bool → ℕ
bit true = 1
bit false = 0

mask_of-cons : (b : Bool) (bs : List Bool) → mask_of (b ∷ bs) ≡ mask_of bs * 2 + bit b
unfolding mask_of bit
mask_of-cons true bs = refl
mask_of-cons false bs = omega arith

half_bit : (m : ℕ) (b : Bool) → (m * 2 + bit b) / 2 ≡ m × (m * 2 + bit b) % 2 ≡ bit b
unfolding bit
half_bit m true = omega arith
half_bit m false = omega arith

bit-max : (g n : Bool) → max (bit g) (bit n) ≡ bit (g || n)
unfolding bit
bit-max true true = refl
bit-max true false = refl
bit-max false true = refl
bit-max false false = refl

or_step :
    (a b : ℕ) (g n : Bool) → bit_or (a * 2 + bit g) (b * 2 + bit n) ≡ bit_or a b * 2 + bit (g || n)
or_step a b g n =
    let p = half_bit a g in
    let q = half_bit b n in
    halve_or (a * 2 + bit g) (b * 2 + bit n) ∙ rw (p.0, p.1, q.0, q.1, bit-max g n) refl

and_step :
    (x mask : ℕ) (b : Bool)
    → bit_and (x * 2 + bit b) mask ≡ bit_and x (mask / 2) * 2 + min (bit b) (mask % 2)
and_step x mask b = let p = half_bit x b in halve (x * 2 + bit b) mask ∙ rw (p.0, p.1) refl

nothing : (mask : ℕ) → bit_and (bit_or (mask_of []) (mask_of [])) mask ≡ 0
unfolding mask_of
nothing mask = rw (bit_or-bitwise 0 0) (omega (arith, halve 0 mask, bit_and-bitwise 0 mask))

-- A digit is set in the result exactly if the bit is selected.
low_bit :
    (y m : ℕ) (b rest : Bool)
    → m < 2
    → (y == 0) ≡ not rest
    → (y * 2 + min (bit b) m == 0) ≡ not (m == 1 && b || rest)
unfolding bit
low_bit y m true true h k = ground arith
low_bit y m true false h k = ground arith
low_bit y m false true h k = ground arith
low_bit y m false false h k = ground arith

pub masked-selected :
    (gs ns : List Bool) (mask : ℕ)
    → length gs ≡ length ns
    → (bit_and (bit_or (mask_of gs) (mask_of ns)) mask == 0) ≡ not (selected gs ns mask)
unfolding selected
masked-selected [] [] mask h = rw (nothing mask) refl
masked-selected [] (n ∷ ns) mask h = absurd (omega arith)
masked-selected (g ∷ gs) [] mask h = absurd (omega arith)
masked-selected (g ∷ gs) (n ∷ ns) mask h =
    let ih = masked-selected gs ns (mask / 2) (omega (arith, h)) in
    rw
      (
        mask_of-cons g gs,
        mask_of-cons n ns,
        or_step (mask_of gs) (mask_of ns) g n,
        and_step (bit_or (mask_of gs) (mask_of ns)) mask (g || n),
      )
      (low_bit (bit_and (bit_or (mask_of gs) (mask_of ns)) (mask / 2)) (mask % 2) (g || n)
        (selected gs ns (mask / 2)) (omega arith) ih)
