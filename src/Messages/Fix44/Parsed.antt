-- ===== src/Messages/Fix44/Parsed.antt =====
-- The loop of `parse_header` in include/nexusfix/parser/consteval_parser.hpp over fields that the
-- assembler of include/nexusfix/messages/common/trailer.hpp wrote.
use nexus_fix.Base.{
  ℕ, zero, suc, ◌-◌, ◌≤◌, ◌≡◌, refl, ap, true, false, ◌&&◌, [], ◌∷◌, ◌++◌, arith, ltb, none, ◌==◌,
  Bytes, is_empty, length,
}
use nexus_fix.Base.Words.{max_int}
use nexus_fix.Types.{ok, no_error}
use nexus_fix.Parser.FieldView.{FieldView, FieldIterator, next_at, has_next}
use nexus_fix.Parser.Header.{
  HeaderState, max_header_fields, header_bit, mark_seen, take_field, header_round, header_loop,
}
use nexus_fix.Messages.Assembler.Appended.{encode}
use nexus_fix.Messages.Fix44.Reads.{IsPlain, next_at-encode}

-- The iterator over the last bytes of a buffer of `size` bytes.
abbrev pub reading : ℕ → Bytes → FieldIterator
reading size rest = record { size = size; rest = rest; last_error = no_error }

nonempty :
    (it : FieldIterator) (bytes : Bytes) (tag : ℕ)
    → (tag == 0) ≡ false
    → (next_at it bytes).0.tag ≡ tag
    → is_empty bytes ≡ false
unfolding next_at
nonempty it [] tag h e = ground arith
nonempty it (c ∷ cs) tag h e = refl

-- A field that the loop can meet, with the state behind it.
pub record Taken (s t : HeaderState) (tag : ℕ) (value : Bytes) (pos : ℕ) : Type 0 where
  pub fits : tag ≤ max_int
  pub used : (tag == 0) ≡ false
  pub plain : IsPlain value
  pub marked : HeaderState
  pub marks : mark_seen s tag ≡ ok marked
  pub takes : take_field marked (record { tag = tag; value = value }) pos ≡ ok t

round-encode :
    (s t : HeaderState) (n tag : ℕ) (value r : Bytes)
    → Taken s t tag value (n - length r)
    → header_round s (reading n (encode tag value ++ r)) ≡ ok (t, reading n r)
unfolding header_round
round-encode s t n tag value r v =
    rw (next_at-encode (reading n (encode tag value ++ r)) tag value r v.fits v.plain)
      (rw v.used (rw v.marks (rw v.takes refl)))

-- A round of the loop.
pub loop-encode :
    (fuel : ℕ) (s t : HeaderState) (n tag : ℕ) (value r : Bytes)
    → (ltb s.fields_parsed max_header_fields && s.body_start == 0) ≡ true
    → Taken s t tag value (n - length r)
    → header_loop (suc fuel) s (reading n (encode tag value ++ r))
      ≡ header_loop fuel t (reading n r)
unfolding header_loop
loop-encode fuel s t n tag value r more v =
    let it = reading n (encode tag value ++ r) in
    let read = next_at-encode it tag value r v.fits v.plain in
    let opened : is_empty (encode tag value ++ r) ≡ false =
      nonempty it (encode tag value ++ r) tag v.used
        (ap (λ (p : FieldView × FieldIterator). p.0.tag) read) in
    rw (opened, header_loop) (rw more (rw (round-encode s t n tag value r v) refl))

pub loop-ends :
    (fuel : ℕ) (s : HeaderState) (it : FieldIterator)
    → (has_next it && ltb s.fields_parsed max_header_fields && s.body_start == 0) ≡ false
    → header_loop fuel s it ≡ ok (s, it)
unfolding header_loop
loop-ends zero s it h = refl
loop-ends (suc fuel) s it h = rw (h, header_loop) refl

-- A field that is no header field ends the header.
pub body-Taken :
    (s : HeaderState) (tag : ℕ) (value : Bytes) (pos : ℕ)
    → header_bit tag ≡ none
    → tag ≤ max_int
    → (tag == 0) ≡ false
    → IsPlain value
    → Taken s (record s { body_start = pos - length value - 2 }) tag value pos
unfolding header_bit mark_seen take_field
body-Taken s tag value pos h fits used plain = record {
  fits = fits;
  used = used;
  plain = plain;
  marked = s;
  marks = rw (h, mark_seen) refl;
  takes = ground arith;
}
