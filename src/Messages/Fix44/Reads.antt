-- ===== src/Messages/Fix44/Reads.antt =====
-- A field as the assembler of include/nexusfix/messages/common/trailer.hpp writes it is the field that
-- the iterator of include/nexusfix/parser/field_view.hpp reads.
use nexus_fix.Base.{
  ℕ, ◌+◌, ◌-◌, ◌*◌, ◌/◌, ◌≤◌, ◌≡◌, ◌≢◌, refl, ap, ◌∙◌, Bool, true, false, not, ◌&&◌, [], ◌∷◌, ◌++◌,
  none, some, arith, ltb, ◌==◌, Bytes, all,
}
use nexus_fix.Base.Words.{max_int}
use mathlib.Core.List.{append_assoc}
use nexus_fix.Types.{soh, equals, no_error, unterminated_field}
use nexus_fix.Messages.Assembler.{digits_loop, reverse_onto, to_digits}
use nexus_fix.Messages.Assembler.Appended.{encode}
use nexus_fix.Messages.Assembler.Decimal.{value, value-digits_loop, all-digits_loop}
use nexus_fix.Parser.FieldView.{
  is_digit, FieldView, FieldIterator, TagScan, tag_read, tag_refused, scan_tag, scan_value, next_at,
  as_int,
}
use nexus_fix.Parser.FieldView

-- A text that can stand in a field.
abbrev pub IsPlain : Bytes → Type 0
IsPlain value = all (λ c. not (c == soh)) value ≡ true

scan_tag-digit :
    (t c : ℕ) (out : Bytes)
    → is_digit c ≡ true
    → c - b'0' + 10 * t ≤ max_int
    → scan_tag t (c ∷ out) ≡ scan_tag (c - b'0' + 10 * t) out
unfolding scan_tag
scan_tag-digit t c out d h =
    let no_equals : (c == equals) ≡ false = ground arith in
    let room : ltb ((max_int - (c - b'0')) / 10) t ≡ false = ground arith in
    let sum : t * 10 + (c - b'0') ≡ c - b'0' + 10 * t = omega arith in
    rw (no_equals, d, room, sum) refl

scan_tag-equals : (t : ℕ) (r : Bytes) → scan_tag t (equals ∷ r) ≡ tag_read t r
unfolding scan_tag
scan_tag-equals t r = refl

and_left : (a b : Bool) → a && b ≡ true → a ≡ true
and_left a b h = ground arith

and_right : (a b : Bool) → a && b ≡ true → b ≡ true
and_right a b h = ground arith

scan-reverse_onto :
    (ds out : Bytes)
    → all is_digit ds ≡ true
    → value ds ≤ max_int
    → scan_tag 0 (reverse_onto out ds) ≡ scan_tag (value ds) out
unfolding reverse_onto all
scan-reverse_onto [] out d h = refl
scan-reverse_onto (c ∷ cs) out d h =
    scan-reverse_onto cs (c ∷ out) (ground arith) (omega arith)
    ∙ scan_tag-digit (value cs) c out (ground arith) h

reverse_onto-append : (ds out r : Bytes) → reverse_onto out ds ++ r ≡ reverse_onto (out ++ r) ds
unfolding reverse_onto
reverse_onto-append [] out r = refl
reverse_onto-append (d ∷ ds) out r = reverse_onto-append ds (d ∷ out) r

pub scan_tag-to_digits :
    (tag : ℕ) (r : Bytes)
    → tag ≤ max_int
    → scan_tag 0 (to_digits tag ++ equals ∷ r) ≡ tag_read tag r
unfolding to_digits
scan_tag-to_digits tag r h =
    let same = value-digits_loop 20 tag (omega arith) in
    ap (scan_tag 0) (reverse_onto-append (digits_loop 20 tag) [] (equals ∷ r))
    ∙ scan-reverse_onto (digits_loop 20 tag) (equals ∷ r) (all-digits_loop 20 tag)
        (omega (arith, same))
    ∙ ap (λ n. scan_tag n (equals ∷ r)) same
    ∙ scan_tag-equals tag r

scan_value-plain :
    (value r : Bytes) → IsPlain value → scan_value ((value ++ soh ∷ []) ++ r) ≡ some (value, r)
unfolding scan_value all
scan_value-plain [] r h = refl
scan_value-plain (c ∷ cs) r h =
    let inside : (c == soh) ≡ false = ground arith in
    rw (inside, scan_value-plain cs r (and_right (not (c == soh)) _ h)) refl

empty_tag : (tag : ℕ) (rest : Bytes) → scan_tag 0 [] ≢ tag_read tag rest
unfolding scan_tag
empty_tag tag rest h = cc

-- `next_at` behind its scan of the tag.
abbrev behind_tag : FieldIterator → TagScan → FieldView × FieldIterator
behind_tag it (tag_refused code rest) =
    (FieldView.no_field, record it { rest = rest; last_error = code })
behind_tag it (tag_read tag rest) = elim (scan_value rest) [
  | none ↦ (FieldView.no_field, record it { rest = []; last_error = unterminated_field })
  | some (value, behind) ↦
      (record { tag = tag; value = value }, record it { rest = behind; last_error = no_error })
]

next_at-scanned :
    (it : FieldIterator) (bytes : Bytes) (tag : ℕ) (rest value r : Bytes)
    → scan_tag 0 bytes ≡ tag_read tag rest
    → scan_value rest ≡ some (value, r)
    → next_at it bytes
      ≡ (record { tag = tag; value = value }, record it { rest = r; last_error = no_error })
unfolding next_at
next_at-scanned it [] tag rest value r h k = absurd (empty_tag tag rest h)
next_at-scanned it (c ∷ cs) tag rest value r h k = ap (behind_tag it) h ∙ rw (k, behind_tag) refl

-- The field that is read, and the iterator behind it.
pub next_at-encode :
    (it : FieldIterator) (tag : ℕ) (value r : Bytes)
    → tag ≤ max_int
    → IsPlain value
    → next_at it (encode tag value ++ r)
      ≡ (record { tag = tag; value = value }, record it { rest = r; last_error = no_error })
next_at-encode it tag value r h p =
    next_at-scanned it (encode tag value ++ r) tag ((value ++ soh ∷ []) ++ r) value r
      (ap (scan_tag 0) (append_assoc (to_digits tag) (equals ∷ (value ++ soh ∷ [])) r)
        ∙ scan_tag-to_digits tag ((value ++ soh ∷ []) ++ r) h)
      (scan_value-plain value r p)
