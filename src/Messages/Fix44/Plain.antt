-- ===== src/Messages/Fix44/Plain.antt =====
-- The texts that include/nexusfix/messages/fix44 writes for numbers: none holds an SOH, and the parser
-- of include/nexusfix/parser/field_view.hpp reads the body length back.
use nexus_fix.Base.{
  ℕ, ◌+◌, ◌/◌, ◌%◌, ◌<◌, ◌≡◌, refl, ap, ◌∙◌, true, false, [], ◌∷◌, arith, some, ◌==◌, Bytes, all,
}
use nexus_fix.Base.Words.{ℤ, pos, negsuc, max_i64}
use nexus_fix.Types.{format_checksum}
use nexus_fix.Parser.FieldView.{is_digit, as_int}
use nexus_fix.Parser.FieldView
use nexus_fix.Messages.Assembler.{digits_loop, reverse_onto, to_digits}
use nexus_fix.Messages.Assembler.Decimal.{value, all-digits_loop, read-reverse_onto}
use nexus_fix.Messages.Fix44.Fields.{decimal}
use nexus_fix.Messages.Fix44.Written.{six_digits}
use nexus_fix.Messages.Fix44.Reads.{IsPlain}

plain-reverse_onto :
    (ds out : Bytes) → all is_digit ds ≡ true → IsPlain out → IsPlain (reverse_onto out ds)
unfolding reverse_onto all
plain-reverse_onto [] out d h = h
plain-reverse_onto (c ∷ cs) out d h = plain-reverse_onto cs (c ∷ out) (ground arith) (ground arith)

pub plain-to_digits : (n : ℕ) → IsPlain (to_digits n)
unfolding to_digits all
plain-to_digits n = plain-reverse_onto (digits_loop 20 n) [] (all-digits_loop 20 n) refl

pub plain-decimal : (n : ℤ) → IsPlain (decimal n)
unfolding all
plain-decimal (pos n) = plain-to_digits n
plain-decimal (negsuc n) = plain-to_digits (n + 1)

pub plain-six_digits : (n : ℕ) → IsPlain (six_digits n)
unfolding all
plain-six_digits n = ground arith

pub plain-format_checksum : (sum : ℕ) → IsPlain (format_checksum sum)
unfolding all format_checksum
plain-format_checksum sum = ground arith

-- The six digits, the last one first.
abbrev six_reversed : ℕ → Bytes
six_reversed n =
    (b'0' + n % 10)
    ∷ (b'0' + n / 10 % 10)
    ∷ (b'0' + n / 10 / 10 % 10)
    ∷ (b'0' + n / 10 / 10 / 10 % 10)
    ∷ (b'0' + n / 10 / 10 / 10 / 10 % 10)
    ∷ (b'0' + n / 10 / 10 / 10 / 10 / 10 % 10)
    ∷ []

value-six_reversed : (n : ℕ) → n < 1_000_000 → value (six_reversed n) ≡ n
value-six_reversed n h = omega arith

as_int-digit :
    (c : ℕ) (cs : Bytes) (n : ℕ)
    → (c == b'-') ≡ false
    → FieldView.digits_loop max_i64 0 (c ∷ cs) ≡ some n
    → as_int (c ∷ cs) ≡ some (pos n)
unfolding as_int
as_int-digit c cs n h e = rw (h, as_int) (rw e refl)

pub as_int-six_digits : (n : ℕ) → n < 1_000_000 → as_int (six_digits n) ≡ some (pos n)
unfolding reverse_onto all FieldView.digits_loop
as_int-six_digits n h =
    let same = value-six_reversed n h in
    as_int-digit _ _ n (ground arith) (
      read-reverse_onto max_i64 (six_reversed n) [] (ground arith) (omega (arith, same))
      ∙ ap some same)
