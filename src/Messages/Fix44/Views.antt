-- ===== src/Messages/Fix44/Views.antt =====
-- The fields that `parse_fields` of include/nexusfix/parser/runtime_parser.hpp reads from the bytes of
-- fields, as the assembler of include/nexusfix/messages/common/trailer.hpp writes them.
use nexus_fix.Base.{
  ℕ, suc, ◌+◌, ◌-◌, ◌*◌, ◌/◌, ◌≤◌, ◌<◌, ◌≡◌, refl, sym, ap, ◌∙◌, Bool, true, false, not, ◌&&◌, List,
  [], ◌∷◌, ◌++◌, map, arith, ltb, leb, ◌==◌, Bytes, length, length-append, all, is_empty, take,
  drop, take-length, drop-drop, drop-length,
}
use mathlib.Core.List.{append_assoc}
use nexus_fix.Base.Words.{max_int}
use nexus_fix.Types.{soh, equals, ok}
use nexus_fix.Types.Tag
use nexus_fix.Parser.FieldView.{FieldView, is_digit}
use nexus_fix.Parser.Message.{find_equals, tag_loop, slice, parse_field, parse_fields, max_fields}
use nexus_fix.Messages.Assembler.{digits_loop, reverse_onto, to_digits}
use nexus_fix.Messages.Assembler.Appended.{encode}
use nexus_fix.Messages.Assembler.Decimal.{
  value, value-digits_loop, all-digits_loop, is_empty-digits_loop,
}
use nexus_fix.Messages.Fix44.Fields.{Fields}
use nexus_fix.Messages.Fix44.Written.{render}
use nexus_fix.Messages.Fix44.Positions.{width, ends}

all-reverse_onto :
    (ds out : Bytes)
    → all is_digit ds ≡ true
    → all is_digit out ≡ true
    → all is_digit (reverse_onto out ds) ≡ true
unfolding reverse_onto all
all-reverse_onto [] out d h = h
all-reverse_onto (c ∷ cs) out d h = all-reverse_onto cs (c ∷ out) (ground arith) (ground arith)

all-to_digits : (n : ℕ) → all is_digit (to_digits n) ≡ true
unfolding to_digits all
all-to_digits n = all-reverse_onto (digits_loop 20 n) [] (all-digits_loop 20 n) refl

length-reverse_onto : (ds out : Bytes) → length (reverse_onto out ds) ≡ length ds + length out
unfolding reverse_onto
length-reverse_onto [] out = omega arith
length-reverse_onto (d ∷ ds) out = length-reverse_onto ds (d ∷ out) ∙ omega arith

some_byte : (bytes : Bytes) → is_empty bytes ≡ false → 0 < length bytes
some_byte [] h = ground arith
some_byte (c ∷ cs) h = omega arith

some_digit : (n : ℕ) → 0 < length (to_digits n)
unfolding to_digits
some_digit n = omega (
  arith,
  length-reverse_onto (digits_loop 20 n) [],
  some_byte (digits_loop 20 n) (is_empty-digits_loop 20 n),
)

find_equals-digits :
    (ds r : Bytes) (i : ℕ)
    → all is_digit ds ≡ true
    → find_equals (ds ++ equals ∷ r) i ≡ i + length ds
unfolding find_equals all
find_equals-digits [] r i d = omega arith
find_equals-digits (c ∷ cs) r i d =
    let other : (c == equals) ≡ false = ground arith in
    rw (other, find_equals-digits cs r (i + 1) (ground arith)) (omega arith)

-- The loop over the digits, the last of which come first.
tag_loop-reverse_onto :
    (ds out : Bytes) (j : ℕ)
    → all is_digit ds ≡ true
    → value ds ≤ max_int
    → tag_loop (reverse_onto out ds) 0 j ≡ tag_loop out (value ds) (j + length ds)
unfolding reverse_onto tag_loop all
tag_loop-reverse_onto [] out j d h = ap (tag_loop out 0) (omega arith)
tag_loop-reverse_onto (c ∷ cs) out j d h =
    let digit : is_digit c ≡ true = ground arith in
    let room : ltb ((max_int - (c - b'0')) / 10) (value cs) ≡ false = ground arith in
    let sum : value cs * 10 + (c - b'0') ≡ c - b'0' + 10 * value cs = omega arith in
    let next : j + length cs + 1 ≡ j + suc (length cs) = omega arith in
    tag_loop-reverse_onto cs (c ∷ out) j (ground arith) (omega arith)
    ∙ rw digit (rw room (rw (sum, next) refl))

tag_loop-to_digits : (tag j : ℕ) → tag ≤ max_int → tag_loop (to_digits tag) 0 j ≡ ok tag
unfolding to_digits tag_loop
tag_loop-to_digits tag j h =
    let same = value-digits_loop 20 tag (omega arith) in
    tag_loop-reverse_onto (digits_loop 20 tag) [] j (all-digits_loop 20 tag) (omega (arith, same))
    ∙ ap ok same

abbrev pub view : ℕ × Bytes → FieldView
view (tag, value) = record { tag = tag; value = value }

-- A field's bytes at an index.
module _ (bytes : Bytes) (start tag : ℕ) (text r : Bytes)
    (there : drop start bytes ≡ to_digits tag ++ equals ∷ (text ++ soh ∷ r)) where
  abbrev digits : ℕ
  digits = length (to_digits tag)

  equals_pos : find_equals (drop start bytes) start ≡ start + digits
  equals_pos =
      ap (λ z. find_equals z start) there
      ∙ find_equals-digits (to_digits tag) (text ++ soh ∷ r) start (all-to_digits tag)

  tag_slice : slice bytes start (start + digits) ≡ to_digits tag
  tag_slice =
      ap (λ n. take n (drop start bytes)) (omega arith)
      ∙ ap (take digits) there
      ∙ take-length (to_digits tag) _

  value_slice : slice bytes (start + digits + 1) (start + width (tag, text)) ≡ text
  value_slice =
      let behind : drop (start + digits + 1) bytes ≡ text ++ soh ∷ r =
        drop-drop (start + digits) 1 bytes
        ∙ ap (drop 1) (
            drop-drop start digits bytes
            ∙ ap (drop digits) there
            ∙ drop-length (to_digits tag) _) in
      rw behind (ap (λ n. take n (text ++ soh ∷ r)) (omega arith) ∙ take-length text (soh ∷ r))

  parse_field-view :
      tag ≤ max_int → parse_field bytes start (start + width (tag, text)) ≡ ok (view (tag, text))
  unfolding parse_field
  parse_field-view fits =
      let digit = some_digit tag in
      let inside : leb (start + width (tag, text)) (start + digits) ≡ false = ground arith in
      let tagged : (start + digits == start) ≡ false = ground arith in
      rw (equals_pos, parse_field)
        (rw inside
          (rw tagged (rw tag_slice (rw (tag_loop-to_digits tag start fits) (rw value_slice refl)))))

  next_field : drop (start + width (tag, text) + 1) bytes ≡ r
  next_field =
      let front = to_digits tag ++ equals ∷ text in
      let wide : start + width (tag, text) + 1 ≡ start + (length front + 1) =
        omega (arith, length-append (to_digits tag) (equals ∷ text)) in
      ap (λ n. drop n bytes) wide
      ∙ drop-drop start (length front + 1) bytes
      ∙ ap (drop (length front + 1))
          (there ∙ sym (append_assoc (to_digits tag) (equals ∷ text) (soh ∷ r)))
      ∙ drop-drop (length front) 1 _
      ∙ ap (drop 1) (drop-length front (soh ∷ r))

-- Fields that stand in front of a trailer.
abbrev pub is_inner : ℕ × Bytes → Bool
is_inner (tag, text) = leb tag max_int && not (tag == Tag.check_sum)

encode_there :
    (tag : ℕ) (text r : Bytes) → encode tag text ++ r ≡ to_digits tag ++ equals ∷ (text ++ soh ∷ r)
encode_there tag text r =
    append_assoc (to_digits tag) (equals ∷ (text ++ soh ∷ [])) r
    ∙ ap (λ z. to_digits tag ++ equals ∷ z) (append_assoc text (soh ∷ []) r)

pub parse_fields-render :
    (bytes : Bytes) (read : List FieldView) (start : ℕ) (fs : Fields) (sum : Bytes)
    → all is_inner fs ≡ true
    → length read + length fs < max_fields
    → drop start bytes ≡ render (fs ++ (Tag.check_sum, sum) ∷ [])
    → parse_fields bytes read start (ends start (fs ++ (Tag.check_sum, sum) ∷ []))
      ≡ ok (read ++ map view (fs ++ (Tag.check_sum, sum) ∷ []))
unfolding parse_fields all
parse_fields-render bytes read start [] sum h l there =
    let known =
      parse_field-view bytes start Tag.check_sum sum [] (there ∙ encode_there Tag.check_sum sum [])
        (ground arith) in
    let free : leb max_fields (length read) ≡ false = ground arith in
    rw (known, parse_fields) (rw free refl)
parse_fields-render bytes read start ((tag, text) ∷ fs) sum h l there =
    let last : Fields = (Tag.check_sum, sum) ∷ [] in
    let split : drop start bytes ≡ to_digits tag ++ equals ∷ (text ++ soh ∷ render (fs ++ last)) =
      there ∙ encode_there tag text (render (fs ++ last)) in
    let known : parse_field bytes start (start + width (tag, text)) ≡ ok (view (tag, text)) =
      parse_field-view bytes start tag text (render (fs ++ last)) split (ground arith) in
    let free : leb max_fields (length read) ≡ false = ground arith in
    let goes_on : (tag == Tag.check_sum) ≡ false = ground arith in
    let next = start + width (tag, text) + 1 in
    let grown = read ++ view (tag, text) ∷ [] in
    let inner : all is_inner fs ≡ true = ground arith in
    let count : length grown + length fs < max_fields =
      omega (arith, length-append read (view (tag, text) ∷ [])) in
    let more : parse_fields bytes grown next (ends next (fs ++ last))
        ≡ ok (read ++ map view ((tag, text) ∷ (fs ++ last))) =
      parse_fields-render bytes grown next fs sum inner count
        (next_field bytes start tag text _ split)
      ∙ ap ok (append_assoc read (view (tag, text) ∷ []) (map view (fs ++ last))) in
    rw (known, parse_fields) (rw free (rw goes_on more))
