-- ===== src/Messages/Assembler/Decimal.antt =====
-- The digits that the assembler of include/nexusfix/messages/common/trailer.hpp writes are read back
-- by include/nexusfix/parser/field_view.hpp as the number they were written for.
use nexus_fix.Base.{
  ℕ, zero, suc, ◌+◌, ◌-◌, ◌*◌, ◌/◌, ◌≤◌, ◌<◌, ◌≡◌, refl, ap, ◌∙◌, true, false, some, arith, Bytes,
  [], ◌∷◌, is_empty, all,
}
use nexus_fix.Base.Words.{max_u64}
use nexus_fix.Messages.Assembler.{digits_loop, reverse_onto, to_digits}
use nexus_fix.Parser.FieldView.{is_digit, as_uint}
use nexus_fix.Parser.FieldView

-- The number that digits stand for, the last one first.
abbrev pub value : Bytes → ℕ
value [] = 0
value (c ∷ cs) = c - b'0' + 10 * value cs

-- The numbers below this bound have no more digits than `digits_loop` has rounds.
abbrev pub room : ℕ → ℕ
room zero = 10
room (suc fuel) = 10 * room fuel

pub value-digits_loop : (fuel n : ℕ) → n < room fuel → value (digits_loop fuel n) ≡ n
unfolding digits_loop
value-digits_loop zero n h = omega arith
value-digits_loop (suc fuel) n h = ground (arith, value-digits_loop fuel (n / 10))

pub all-digits_loop : (fuel n : ℕ) → all is_digit (digits_loop fuel n) ≡ true
unfolding digits_loop all
all-digits_loop zero n = ground arith
all-digits_loop (suc fuel) n = ground (arith, all-digits_loop fuel (n / 10))

pub is_empty-digits_loop : (fuel n : ℕ) → is_empty (digits_loop fuel n) ≡ false
unfolding digits_loop
is_empty-digits_loop zero n = refl
is_empty-digits_loop (suc fuel) n = ground arith

-- Reading the digits in the order in which they are written.
pub read-reverse_onto :
    (max : ℕ) (ds out : Bytes)
    → all is_digit ds ≡ true
    → value ds ≤ max
    → FieldView.digits_loop max 0 (reverse_onto out ds) ≡ FieldView.digits_loop max (value ds) out
unfolding FieldView.digits_loop reverse_onto all
read-reverse_onto max [] out d h = refl
read-reverse_onto max (c ∷ cs) out d h =
    read-reverse_onto max cs (c ∷ out) (ground arith) (omega arith) ∙ ground arith

is_empty-reverse_onto : (c : ℕ) (out ds : Bytes) → is_empty (reverse_onto (c ∷ out) ds) ≡ false
unfolding reverse_onto
is_empty-reverse_onto c out [] = refl
is_empty-reverse_onto c out (d ∷ ds) = is_empty-reverse_onto d (c ∷ out) ds

as_uint-nonempty :
    (bytes : Bytes) → is_empty bytes ≡ false → as_uint bytes ≡ FieldView.digits_loop max_u64 0 bytes
unfolding as_uint
as_uint-nonempty [] h = cc
as_uint-nonempty (c ∷ cs) h = refl

as_uint-reverse_onto :
    (ds : Bytes) (n : ℕ)
    → all is_digit ds ≡ true
    → is_empty ds ≡ false
    → value ds ≡ n
    → n ≤ max_u64
    → as_uint (reverse_onto [] ds) ≡ some n
unfolding FieldView.digits_loop reverse_onto
as_uint-reverse_onto [] n d e v h = cc
as_uint-reverse_onto (c ∷ cs) n d e v h =
    as_uint-nonempty _ (is_empty-reverse_onto c [] cs)
    ∙ read-reverse_onto max_u64 (c ∷ cs) [] d (omega (arith, v))
    ∙ ap some v

-- Every number that fits an `uint64_t` is read back from the digits that the assembler writes
-- for it.
pub as_uint-to_digits : (n : ℕ) → n ≤ max_u64 → as_uint (to_digits n) ≡ some n
unfolding to_digits
as_uint-to_digits n h =
    as_uint-reverse_onto (digits_loop 20 n) n (all-digits_loop 20 n) (is_empty-digits_loop 20 n)
      (value-digits_loop 20 n (omega arith)) h
