-- ===== src/Messages/Assembler/Appended.antt =====
-- What appending does to an assembler that has dropped nothing: the bytes stand behind those it held.
use nexus_fix.Base.{
  ℕ, ◌≤◌, ◌≡◌, refl, sym, ap, ◌∙◌, false, [], ◌∷◌, ◌++◌, arith, Bytes, length, length-append,
}
use mathlib.Core.List.{append-nil, append_assoc}
use nexus_fix.Types.{soh, equals}
use nexus_fix.Types.Tag
use nexus_fix.Messages.Assembler.{
  MessageAssembler, max_message_size, append_byte, append_raw, append_field, to_digits,
  length_placeholder, start,
}

-- `b` is `a` with some bytes appended, none of them dropped.
pub record Appended (a b : MessageAssembler) (bytes : Bytes) : Type 0 where
  pub intact : a.truncated ≡ false
  pub buffer : b.buffer ≡ a.buffer ++ bytes
  pub body_length_pos : b.body_length_pos ≡ a.body_length_pos
  pub body_start : b.body_start ≡ a.body_start

pub Appended-trans :
    (a b c : MessageAssembler) (xs ys : Bytes)
    → Appended a b xs
    → Appended b c ys
    → Appended a c (xs ++ ys)
Appended-trans a b c xs ys h k = record {
  intact = h.intact;
  buffer = k.buffer ∙ ap (λ z. z ++ ys) h.buffer ∙ append_assoc a.buffer xs ys;
  body_length_pos = k.body_length_pos ∙ h.body_length_pos;
  body_start = k.body_start ∙ h.body_start;
}

pub append_byte-Appended :
    (a : MessageAssembler) (c : ℕ)
    → (append_byte a c).truncated ≡ false
    → Appended a (append_byte a c) (c ∷ [])
unfolding append_byte
append_byte-Appended a c h = record {
  intact = ground arith;
  buffer = ground arith;
  body_length_pos = ground arith;
  body_start = ground arith;
}

pub append_raw-Appended :
    (a : MessageAssembler) (cs : Bytes)
    → (append_raw a cs).truncated ≡ false
    → Appended a (append_raw a cs) cs
unfolding append_raw
append_raw-Appended a [] h = record {
  intact = h;
  buffer = sym (append-nil a.buffer);
  body_length_pos = refl;
  body_start = refl;
}
append_raw-Appended a (c ∷ cs) h =
    let more = append_raw-Appended (append_byte a c) cs h in
    Appended-trans a (append_byte a c) _ (c ∷ []) cs (append_byte-Appended a c more.intact) more

-- The bytes of a field.
abbrev pub encode : ℕ → Bytes → Bytes
encode tag value = to_digits tag ++ equals ∷ (value ++ soh ∷ [])

pub append_field-Appended :
    (a : MessageAssembler) (tag : ℕ) (value : Bytes)
    → (append_field a tag value).truncated ≡ false
    → Appended a (append_field a tag value) (encode tag value)
unfolding append_field
append_field-Appended a tag value h =
    let tagged = append_raw a (to_digits tag) in
    let equalled = append_byte tagged equals in
    let valued = append_raw equalled value in
    let last = append_byte-Appended valued soh h in
    let third = append_raw-Appended equalled value last.intact in
    let second = append_byte-Appended tagged equals third.intact in
    let first = append_raw-Appended a (to_digits tag) second.intact in
    Appended-trans a tagged _ (to_digits tag) _ first (
      Appended-trans tagged equalled _ (equals ∷ []) _ second
        (Appended-trans equalled valued _ value (soh ∷ []) third last))

-- No buffer outgrows its capacity.
append_byte-bound :
    (a : MessageAssembler) (c : ℕ)
    → length a.buffer ≤ max_message_size
    → length (append_byte a c).buffer ≤ max_message_size
unfolding append_byte
append_byte-bound a c h = ground (arith, length-append a.buffer (c ∷ []))

append_raw-bound :
    (a : MessageAssembler) (cs : Bytes)
    → length a.buffer ≤ max_message_size
    → length (append_raw a cs).buffer ≤ max_message_size
unfolding append_raw
append_raw-bound a [] h = h
append_raw-bound a (c ∷ cs) h = append_raw-bound (append_byte a c) cs (append_byte-bound a c h)

pub append_field-bound :
    (a : MessageAssembler) (tag : ℕ) (value : Bytes)
    → length a.buffer ≤ max_message_size
    → length (append_field a tag value).buffer ≤ max_message_size
unfolding append_field
append_field-bound a tag value h =
    append_byte-bound _ soh
      (append_raw-bound _ value (append_byte-bound _ equals (append_raw-bound a (to_digits tag) h)))

pub start-bound :
    (a : MessageAssembler) (begin_string : Bytes)
    → length (start a begin_string).buffer ≤ max_message_size
unfolding start
start-bound a begin_string = append_byte-bound _ soh (
    append_raw-bound _ length_placeholder (
      append_field-bound (record a { buffer = []; truncated = false }) Tag.begin_string begin_string
        (omega arith)))
