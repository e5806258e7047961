-- ===== src/Messages/Fix44/Written.antt =====
-- The bytes of a finished message of include/nexusfix/messages/common/trailer.hpp.
use nexus_fix.Base.{
  ℕ, zero, suc, ◌+◌, ◌-◌, ◌/◌, ◌%◌, ◌≤◌, ◌≡◌, refl, sym, ap, ◌∙◌, true, false, [], ◌∷◌, ◌++◌, arith,
  leb, Bytes, length, set, length-append,
}
use mathlib.Core.List.{append-nil, append_assoc}
use nexus_fix.Types.{soh, equals, calculate_checksum, format_checksum}
use nexus_fix.Types.Tag
use nexus_fix.Messages.Assembler.{
  MessageAssembler, max_message_size, append_raw, append_field, length_placeholder, start,
  write_length, finish,
}
use nexus_fix.Messages.Assembler.Appended.{
  Appended, Appended-trans, append_field-Appended, append_raw-Appended, append_byte-Appended,
  encode, start-bound,
}
use nexus_fix.Messages.Assembler.Checksum.{sized, trailer, encode-trailer, finish-intact}
use nexus_fix.Messages.Fix44.Fields.{Fields, append_all, assemble}
use nexus_fix.Messages.Fix44.Valid.{append_all-bound}

-- The bytes of fields.
abbrev pub render : Fields → Bytes
render [] = []
render ((tag, value) ∷ fs) = encode tag value ++ render fs

-- Six digits, as `finish` writes a body length.
abbrev pub six_digits : ℕ → Bytes
six_digits n =
    (b'0' + n / 10 / 10 / 10 / 10 / 10 % 10)
    ∷ (b'0' + n / 10 / 10 / 10 / 10 % 10)
    ∷ (b'0' + n / 10 / 10 / 10 % 10)
    ∷ (b'0' + n / 10 / 10 % 10)
    ∷ (b'0' + n / 10 % 10)
    ∷ (b'0' + n % 10)
    ∷ []

-- BeginString, BodyLength and the fields behind them.
abbrev pub framed : Bytes → Fields → Bytes
framed begin_string fs =
    encode Tag.begin_string begin_string
    ++ (b'9' ∷ equals ∷ (six_digits (length (render fs)) ++ soh ∷ render fs))

append_all-Appended :
    (a : MessageAssembler) (fs : Fields)
    → (append_all a fs).truncated ≡ false
    → Appended a (append_all a fs) (render fs)
unfolding append_all
append_all-Appended a [] h = record {
  intact = h;
  buffer = sym (append-nil a.buffer);
  body_length_pos = refl;
  body_start = refl;
}
append_all-Appended a ((tag, value) ∷ fs) h =
    let more = append_all-Appended (append_field a tag value) fs h in
    Appended-trans a (append_field a tag value) _ (encode tag value) (render fs)
      (append_field-Appended a tag value more.intact) more

record Started (begin_string : Bytes) (a : MessageAssembler) : Type 0 where
  buffer : a.buffer ≡ encode Tag.begin_string begin_string ++ (length_placeholder ++ soh ∷ [])
  body_length_pos : a.body_length_pos ≡ length (encode Tag.begin_string begin_string)
  body_start : a.body_start ≡ length a.buffer

start-Started :
    (a : MessageAssembler) (begin_string : Bytes)
    → (start a begin_string).truncated ≡ false
    → Started begin_string (start a begin_string)
unfolding start
start-Started a begin_string h =
    let cleared = record a { buffer = []; truncated = false } in
    let begun = append_field cleared Tag.begin_string begin_string in
    let marked = record begun { body_length_pos = length begun.buffer } in
    let held = append_raw marked length_placeholder in
    let last = append_byte-Appended held soh h in
    let first = append_raw-Appended marked length_placeholder last.intact in
    let opened = append_field-Appended cleared Tag.begin_string begin_string first.intact in
    record {
      buffer =
          last.buffer
          ∙ ap (λ z. z ++ soh ∷ []) (first.buffer ∙ ap (λ z. z ++ length_placeholder) opened.buffer)
          ∙ append_assoc (encode Tag.begin_string begin_string) length_placeholder (soh ∷ []);
      body_length_pos = last.body_length_pos ∙ first.body_length_pos ∙ ap length opened.buffer;
      body_start = refl;
    }

set-append : (xs ys : Bytes) (i v : ℕ) → set (xs ++ ys) (length xs + i) v ≡ xs ++ set ys i v
set-append [] ys i v = ap (λ n. set ys n v) (omega arith)
set-append (x ∷ xs) ys i v =
    let next : suc (length xs) + i ≡ suc (length xs + i) = omega arith in
    rw next (ap (λ zs. x ∷ zs) (set-append xs ys i v))

write_length-append :
    (n : ℕ) (xs ys : Bytes) (l : ℕ)
    → write_length n (xs ++ ys) (length xs) l ≡ xs ++ write_length n ys 0 l
unfolding write_length
write_length-append zero xs ys l = refl
write_length-append (suc n) xs ys l =
    let from_zero : 0 + n ≡ n = omega arith in
    rw (set-append xs ys n (b'0' + l % 10), from_zero)
      (write_length-append n xs (set ys n (b'0' + l % 10)) (l / 10))

written :
    (rest : Bytes) (l : ℕ)
    → write_length 6 (b'0' ∷ b'0' ∷ b'0' ∷ b'0' ∷ b'0' ∷ b'0' ∷ rest) 0 l ≡ six_digits l ++ rest
unfolding write_length
written rest l = refl

module _ (a : MessageAssembler) (begin_string : Bytes) (fs : Fields) where
  abbrev held : MessageAssembler
  held = append_all (start a begin_string) fs

  abbrev ahead : Bytes
  ahead = encode Tag.begin_string begin_string ++ b'9' ∷ equals ∷ []

  abbrev behind : Bytes
  behind = b'0' ∷ b'0' ∷ b'0' ∷ b'0' ∷ b'0' ∷ b'0' ∷ soh ∷ render fs

  -- The buffer before `finish`.
  record Held : Type 0 where
    buffer : held.buffer ≡ ahead ++ behind
    placed : held.body_length_pos + 2 ≡ length ahead
    body : length held.buffer - held.body_start ≡ length (render fs)
    fits : held.body_length_pos + 8 ≤ max_message_size

  held-Held : held.truncated ≡ false → Held
  held-Held h =
      let app = append_all-Appended (start a begin_string) fs h in
      let begun = start-Started a begin_string app.intact in
      let first = encode Tag.begin_string begin_string in
      let whole = app.buffer ∙ ap (λ z. z ++ render fs) begun.buffer in
      let lengths =
        ap length app.buffer ∙ length-append (start a begin_string).buffer (render fs) in
      record {
        buffer =
            whole
            ∙ append_assoc first (length_placeholder ++ soh ∷ []) (render fs)
            ∙ sym (append_assoc first (b'9' ∷ equals ∷ []) behind);
        placed = omega (
          arith,
          app.body_length_pos ∙ begun.body_length_pos,
          length-append first (b'9' ∷ equals ∷ []),
        );
        body = omega (arith, lengths, app.body_start ∙ begun.body_start);
        fits = omega (
          arith,
          app.body_length_pos ∙ begun.body_length_pos,
          lengths,
          ap length begun.buffer ∙ length-append first (length_placeholder ++ soh ∷ []),
          append_all-bound (start a begin_string) fs (start-bound a begin_string),
        );
      }

  sized-framed : held.truncated ≡ false → sized held ≡ framed begin_string fs
  sized-framed h =
      let v = held-Held h in
      let fits : leb (held.body_length_pos + 8) max_message_size ≡ true = ground (arith, v.fits) in
      rw (fits, v.placed, v.body, v.buffer)
        (write_length-append 6 ahead behind (length (render fs))
          ∙ ap (λ z. ahead ++ z) (written (soh ∷ render fs) (length (render fs)))
          ∙ append_assoc (encode Tag.begin_string begin_string) (b'9' ∷ equals ∷ [])
              (six_digits (length (render fs)) ++ soh ∷ render fs))

  -- What a finished message is, if nothing of it was dropped.
  pub assemble-bytes :
      (assemble a begin_string fs).truncated ≡ false
      → (assemble a begin_string fs).buffer
        ≡ framed begin_string fs ++ trailer (calculate_checksum (framed begin_string fs))
  unfolding assemble finish
  assemble-bytes h =
      let whole = finish-intact held h in
      let sum = calculate_checksum (sized held) in
      let done =
        append_field-Appended (record held { buffer = sized held }) Tag.check_sum
          (format_checksum sum) h in
      done.buffer
      ∙ ap (λ z. sized held ++ z) (encode-trailer sum)
      ∙ ap (λ z. z ++ trailer (calculate_checksum z)) (sized-framed whole)
