-- ===== src/Messages/Fix44/Valid.antt =====
-- The messages that the builders of include/nexusfix/messages/fix44 finish: their checksum is the one
-- that the parser computes, and they fit the assembler's buffer.
use nexus_fix.Base.{
  ◌≤◌, ◌≡◌, false, [], ◌∷◌, ◌++◌, arith, Bytes, length, length-append, ap, ◌∙◌, get_or-behind,
}
use nexus_fix.Types.{soh, ok}
use nexus_fix.Types.Tag
use nexus_fix.Parser.Frame.{validate_checksum}
use nexus_fix.Messages.Assembler.Appended.{
  append_field-Appended, append_raw-Appended, append_byte-Appended, append_field-bound, start-bound,
}
use nexus_fix.Messages.Assembler.Checksum.{
  IsOpen, append_field-IsOpen, finish-checksum, finish-intact, finish-bound,
}
use nexus_fix.Messages.Assembler.{
  MessageAssembler, max_message_size, append_byte, append_raw, append_field, length_placeholder,
  start,
}
use nexus_fix.Messages.Fix44.{Envelope}
use nexus_fix.Messages.Fix44.Fields.{
  Fields, append_all, assemble, AdminMessage, build, type_of, header_fields, body_fields,
  build-assemble,
}

append_all-IsOpen :
    (a : MessageAssembler) (fs : Fields)
    → (append_all a fs).truncated ≡ false
    → (a.truncated ≡ false) × (IsOpen a → IsOpen (append_all a fs))
unfolding append_all
append_all-IsOpen a [] h = (h, λ v. v)
append_all-IsOpen a ((tag, value) ∷ fs) h =
    let (whole, more) = append_all-IsOpen (append_field a tag value) fs h in
    (
      (append_field-Appended a tag value whole).intact,
      λ v. more (append_field-IsOpen a tag value whole v.placed),
    )

start-IsOpen :
    (a : MessageAssembler) (begin_string : Bytes)
    → (start a begin_string).truncated ≡ false
    → IsOpen (start a begin_string)
unfolding start
start-IsOpen a begin_string h =
    let cleared = record a { buffer = []; truncated = false } in
    let begun = append_field cleared Tag.begin_string begin_string in
    let marked = record begun { body_length_pos = length begun.buffer } in
    let held = append_raw marked length_placeholder in
    let last = append_byte-Appended held soh h in
    let first = append_raw-Appended marked length_placeholder last.intact in
    let whole : (append_byte held soh).buffer ≡ (begun.buffer ++ length_placeholder) ++ soh ∷ [] =
      last.buffer ∙ ap (λ z. z ++ soh ∷ []) first.buffer in
    record {
      placed =
          rw (whole, last.body_length_pos ∙ first.body_length_pos)
            (omega (
              arith,
              length-append (begun.buffer ++ length_placeholder) (soh ∷ []),
              length-append begun.buffer length_placeholder,
            ));
      ended = rw whole (
          get_or-behind (begun.buffer ++ length_placeholder) (soh ∷ []) _ 0 0
            (omega (arith, length-append (begun.buffer ++ length_placeholder) (soh ∷ []))));
    }

-- A message put together from any fields, if none of it was dropped, passes the parser's test of the
-- checksum.
pub assemble-checksum :
    (a : MessageAssembler) (begin_string : Bytes) (fs : Fields)
    → (assemble a begin_string fs).truncated ≡ false
    → validate_checksum (assemble a begin_string fs).buffer ≡ ok tt
unfolding assemble
assemble-checksum a begin_string fs h =
    let (whole, opens) =
      append_all-IsOpen (start a begin_string) fs
        (finish-intact (append_all (start a begin_string) fs) h) in
    finish-checksum _ (opens (start-IsOpen a begin_string whole)) h

-- The checksum of every session-level message that a builder finishes without dropping a byte
-- passes the parser's test.
pub build-checksum :
    (a : MessageAssembler) (e : Envelope) (m : AdminMessage)
    → (build a e m).truncated ≡ false
    → validate_checksum (build a e m).buffer ≡ ok tt
build-checksum a e m h =
    let fs = header_fields e (type_of m) ++ body_fields m in
    rw (build-assemble a e m)
      (assemble-checksum a e.begin_string fs (rw (build-assemble a e m) at h))

pub append_all-bound :
    (a : MessageAssembler) (fs : Fields)
    → length a.buffer ≤ max_message_size
    → length (append_all a fs).buffer ≤ max_message_size
unfolding append_all
append_all-bound a [] h = h
append_all-bound a ((tag, value) ∷ fs) h =
    append_all-bound (append_field a tag value) fs (append_field-bound a tag value h)

-- No session-level message outgrows the assembler's buffer, whatever its texts and whatever the
-- assembler held before.
pub build-bound :
    (a : MessageAssembler) (e : Envelope) (m : AdminMessage)
    → length (build a e m).buffer ≤ max_message_size
unfolding assemble
build-bound a e m = rw (build-assemble a e m) (
    finish-bound _ (
      append_all-bound _ (header_fields e (type_of m) ++ body_fields m)
        (start-bound a e.begin_string)))
