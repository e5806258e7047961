-- ===== src/Base/Masks.antt =====
-- A mask of ones, `x & (2^k - 1)`, is a remainder.
use Prim.Native.Nat.{
  ℕ, zero, suc, ◌+◌, ◌-◌, ◌*◌, ◌/◌, ◌%◌, ◌^◌, ◌≤◌, min, bit_and, digits, bit_and-bitwise,
}
use mathlib.Core.Path.{◌≡◌, refl, sym, ap, ◌∙◌}
use native.Mathlib.Nat.{
  mul_assoc, pow-zero, pow-succ', div-add-mod', add-mul-mod_self_right, mod-eq_of_lt, mod-lt,
}
use native.Mathlib.Omega.{arith}

-- The digits of `bit_and` do not depend on the fuel, when there is enough of it.
enough_digits :
    (n m a b : ℕ)
    → a ≤ n
    → a ≤ m
    → digits (λ (c : ℕ). zero) min n a b ≡ digits (λ (c : ℕ). zero) min m a b
enough_digits zero zero zero b _ _ = refl
enough_digits (suc n) zero zero b _ _ = refl
enough_digits zero (suc m) zero b _ _ = refl
enough_digits (suc n) (suc m) zero b _ _ = refl
enough_digits zero m (suc a) b h _ = absurd (omega arith)
enough_digits (suc n) zero (suc a) b _ h = absurd (omega arith)
enough_digits (suc n) (suc m) (suc a) b h h' =
    let half = enough_digits n m (suc a / 2) (b / 2) (omega arith) (omega arith) in
    omega (arith, half)

pub halve : (a b : ℕ) → bit_and a b ≡ bit_and (a / 2) (b / 2) * 2 + min (a % 2) (b % 2)
halve zero b = omega (arith, bit_and-bitwise 0 b, bit_and-bitwise 0 (b / 2))
halve (suc a) b = omega (
  arith,
  bit_and-bitwise (suc a) b,
  bit_and-bitwise (suc a / 2) (b / 2),
  enough_digits a (suc a / 2) (suc a / 2) (b / 2) (omega arith) (omega arith),
)

pub bit_and_nothing : (n a : ℕ) → a ≤ n → bit_and a 0 ≡ 0
bit_and_nothing n zero h = refl
bit_and_nothing zero (suc a) h = absurd (omega arith)
bit_and_nothing (suc n) (suc a) h =
    omega (arith, halve (suc a) 0, bit_and_nothing n (suc a / 2) (omega arith))

pow_double : (k : ℕ) → 2 ^ suc k ≡ 2 ^ k * 2
pow_double k = omega (arith, pow-succ' 2 k)

pub positive_power : (k : ℕ) → 1 ≤ 2 ^ k
positive_power zero = omega arith
positive_power (suc k) = omega (arith, positive_power k, pow_double k)

pub pow-add : (b i j : ℕ) → b ^ (i + j) ≡ b ^ i * b ^ j
pow-add b zero j = let same : 0 + j ≡ j = omega arith in rw (same, pow-zero) (omega arith)
pow-add b (suc i) j =
    let next : suc i + j ≡ suc (i + j) = omega arith in
    ap (λ n. b ^ n) next
    ∙ pow-succ' b (i + j)
    ∙ ap (λ n. b * n) (pow-add b i j)
    ∙ sym (mul_assoc b (b ^ i) (b ^ j))
    ∙ ap (λ n. n * b ^ j) (sym (pow-succ' b i))

mod_double : (a m : ℕ) → 1 ≤ m → a % (m * 2) ≡ a / 2 % m * 2 + a % 2
mod_double a m h =
    let r = a / 2 % m * 2 + a % 2 in
    let q = a / 2 / m in
    let split : a ≡ r + q * (m * 2) = omega (arith, div-add-mod' (a / 2) m) in
    ap (λ t. t % (m * 2)) split
    ∙ add-mul-mod_self_right r q (m * 2)
    ∙ mod-eq_of_lt (omega (arith, mod-lt (a / 2) {m = m} h))

half_mask : (k : ℕ) → (2 ^ k * 2 - 1) / 2 ≡ 2 ^ k - 1
half_mask k = omega (arith, positive_power k)

pub bit_and_mask : (k a : ℕ) → bit_and a (2 ^ k - 1) ≡ a % 2 ^ k
bit_and_mask zero a = omega (arith, bit_and_nothing a a (omega arith))
bit_and_mask (suc k) a = rw pow_double (
    omega (
      arith,
      positive_power k,
      mod_double a (2 ^ k) (positive_power k),
      halve a (2 ^ k * 2 - 1),
      ap (bit_and (a / 2)) (half_mask k),
      bit_and_mask k (a / 2),
    ))
