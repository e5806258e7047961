-- ===== src/Parser/Vector/Bits.antt =====
-- The bits of a comparison's mask, as include/nexusfix/parser/simd_scanner.hpp reads them: lowest first.
use Prim.Native.Nat.{bit_and}
use nexus_fix.Base.{
  ℕ, zero, suc, ◌+◌, ◌-◌, ◌*◌, ◌/◌, ◌%◌, ◌^◌, ◌≤◌, ◌<◌, ◌≡◌, ◌≢◌, refl, ◌∙◌, Bool, true, false,
  List, [], ◌∷◌, arith, ◌==◌, length,
}
use nexus_fix.Base.Masks.{halve}
use nexus_fix.Parser.Message.{SohPositions}
use nexus_fix.Parser.Vector.{mask_of, countr_zero, popcount, push, extract}

bit_and_self_fuel : (n a : ℕ) → a ≤ n → bit_and a a ≡ a
bit_and_self_fuel n zero h = refl
bit_and_self_fuel zero (suc a) h = absurd (omega arith)
bit_and_self_fuel (suc n) (suc a) h =
    omega (arith, halve (suc a) (suc a), bit_and_self_fuel n (suc a / 2) (omega arith))

bit_and_self : (a : ℕ) → bit_and a a ≡ a
bit_and_self a = bit_and_self_fuel a a (omega arith)

-- Clearing the lowest bit of a mask.
clear_odd : (m : ℕ) → bit_and (m * 2 + 1) (m * 2 + 1 - 1) ≡ m * 2
clear_odd m =
    let low : (m * 2 + 1) / 2 ≡ m = omega arith in
    let low' : (m * 2 + 1 - 1) / 2 ≡ m = omega arith in
    halve (m * 2 + 1) (m * 2 + 1 - 1) ∙ rw (low, low', bit_and_self m) (omega arith)

clear_even : (m : ℕ) → 0 < m → bit_and (m * 2) (m * 2 - 1) ≡ bit_and m (m - 1) * 2
clear_even m h =
    let low : m * 2 / 2 ≡ m = omega arith in
    let low' : (m * 2 - 1) / 2 ≡ m - 1 = omega arith in
    halve (m * 2) (m * 2 - 1) ∙ rw (low, low') (omega arith)

countr_zero-odd : (bits m : ℕ) → countr_zero (suc bits) (m * 2 + 1) ≡ 0
unfolding countr_zero
countr_zero-odd bits m = ground arith

countr_zero-even : (bits m : ℕ) → countr_zero (suc bits) (m * 2) ≡ countr_zero bits m + 1
unfolding countr_zero
countr_zero-even bits m =
    let half : m * 2 / 2 ≡ m = omega arith in
    let even : m * 2 % 2 ≡ 0 = omega arith in rw (even, half)

-- What the loop over the set bits does to the positions: the index of each set bit is pushed.
unfoldable pub push_set : List Bool → ℕ → SohPositions → SohPositions
push_set [] i r = r
push_set (true ∷ bs) i r = push_set bs (i + 1) (push (i % 2 ^ 16) r)
push_set (false ∷ bs) i r = push_set bs (i + 1) r

extract-even :
    (bits fuel i m : ℕ) (r : SohPositions)
    → extract (suc bits) fuel i (m * 2) r ≡ extract bits fuel (i + 1) m r
unfolding extract
extract-even bits zero i m r = refl
extract-even bits (suc fuel) i zero r = refl
extract-even bits (suc fuel) i (suc m) r =
    let place : i + (countr_zero bits (suc m) + 1) ≡ i + 1 + countr_zero bits (suc m) =
      omega arith in
    let some_left : (suc m * 2 == 0) ≡ false = ground arith in
    let some_left' : (suc m == 0) ≡ false = ground arith in
    rw
      (
        some_left,
        some_left',
        clear_even (suc m) (omega arith),
        countr_zero-even bits (suc m),
        place,
      )
      (extract-even bits fuel i (bit_and (suc m) (suc m - 1)) _)

pub extract-push_set :
    (bits fuel i : ℕ) (bs : List Bool) (r : SohPositions)
    → length bs ≤ bits
    → length bs ≤ fuel
    → extract bits fuel i (mask_of bs) r ≡ push_set bs i r
unfolding extract mask_of push_set
extract-push_set bits zero i [] r h k = refl
extract-push_set bits (suc fuel) i [] r h k = refl
extract-push_set zero fuel i (b ∷ bs) r h k = absurd (omega arith)
extract-push_set (suc bits) zero i (b ∷ bs) r h k = absurd (omega arith)
extract-push_set (suc bits) (suc fuel) i (true ∷ bs) r h k =
    let some_left : (mask_of bs * 2 + 1 == 0) ≡ false = ground arith in
    let place : i + 0 ≡ i = omega arith in
    rw (some_left, clear_odd (mask_of bs), countr_zero-odd bits (mask_of bs), place)
      (extract-even bits fuel i (mask_of bs) _
        ∙ extract-push_set bits fuel (i + 1) bs _ (omega arith) (omega arith))
extract-push_set (suc bits) (suc fuel) i (false ∷ bs) r h k =
    extract-even bits (suc fuel) i (mask_of bs) r
    ∙ extract-push_set bits (suc fuel) (i + 1) bs r (omega arith) (omega arith)

-- A mask without a set bit has no match, and otherwise the first set bit is the first match.
unfoldable pub seek_set : List Bool → ℕ → ℕ
seek_set [] i = i
seek_set (true ∷ bs) i = i
seek_set (false ∷ bs) i = seek_set bs (i + 1)

pub no_match : (bs : List Bool) (i : ℕ) → mask_of bs ≡ 0 → seek_set bs i ≡ i + length bs
unfolding mask_of seek_set
no_match [] i h = omega arith
no_match (true ∷ bs) i h = absurd (omega arith)
no_match (false ∷ bs) i h = omega (arith, no_match bs (i + 1) (omega arith))

pub first_match :
    (bits : ℕ) (bs : List Bool) (i : ℕ)
    → length bs ≤ bits
    → mask_of bs ≢ 0
    → i + countr_zero bits (mask_of bs) ≡ seek_set bs i × countr_zero bits (mask_of bs) < length bs
unfolding mask_of seek_set
first_match bits [] i h k = absurd (k refl)
first_match zero (b ∷ bs) i h k = absurd (omega arith)
first_match (suc bits) (true ∷ bs) i h k = rw countr_zero-odd (omega arith, omega arith)
first_match (suc bits) (false ∷ bs) i h k =
    let rest = first_match bits bs (i + 1) (omega arith) (λ e. k (omega (arith, e))) in
    rw countr_zero-even (omega (arith, rest.0), omega (arith, rest.1))

unfoldable pub count_set : List Bool → ℕ
count_set [] = 0
count_set (true ∷ bs) = count_set bs + 1
count_set (false ∷ bs) = count_set bs

pub popcount-count_set :
    (bits : ℕ) (bs : List Bool) → length bs ≤ bits → popcount bits (mask_of bs) ≡ count_set bs
unfolding popcount mask_of count_set
popcount-count_set zero [] h = refl
popcount-count_set (suc bits) [] h = omega (arith, popcount-count_set bits [] (omega arith))
popcount-count_set zero (b ∷ bs) h = absurd (omega arith)
popcount-count_set (suc bits) (true ∷ bs) h =
    let half : (mask_of bs * 2 + 1) / 2 ≡ mask_of bs = omega arith in
    rw half (omega (arith, popcount-count_set bits bs (omega arith)))
popcount-count_set (suc bits) (false ∷ bs) h =
    let half : mask_of bs * 2 / 2 ≡ mask_of bs = omega arith in
    rw half (omega (arith, popcount-count_set bits bs (omega arith)))
