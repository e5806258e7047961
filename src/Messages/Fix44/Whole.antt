-- ===== src/Messages/Fix44/Whole.antt =====
-- include/nexusfix/messages/fix44 against `parse` of include/nexusfix/parser/runtime_parser.hpp: a built
-- message is parsed into the header and the fields that it was built from.
use nexus_fix.Base.{
  ℕ, ◌≤◌, ◌≡◌, refl, sym, ap, ◌∙◌, Bool, true, false, not, ◌&&◌, [], ◌∷◌, ◌++◌, map, arith, ltb,
  ◌==◌, Bytes, is_empty, length, length-append, all, get_or-behind,
}
use mathlib.Core.List.{append-nil, append_assoc}
use nexus_fix.Types.{soh, ok, format_checksum, calculate_checksum}
use nexus_fix.Types.Tag
use nexus_fix.Parser.Message.{
  parse, last_byte, scan_soh, scan_positions, check_truncation, max_soh_positions,
}
use nexus_fix.Messages.Assembler.{MessageAssembler}
use nexus_fix.Messages.Assembler.Appended.{encode}
use nexus_fix.Messages.Assembler.Checksum.{trailer, encode-trailer, length-message}
use nexus_fix.Messages.Fix44.{Envelope, is_positive}
use nexus_fix.Messages.Fix44.Fields.{
  Fields, AdminMessage, logon, logout, heartbeat, test_request, resend_request, sequence_reset,
  reject, build, decimal, body_fields, given, build-assemble,
}
use nexus_fix.Messages.Fix44.Valid.{build-bound}
use nexus_fix.Messages.Fix44.Written.{render, six_digits, framed, assemble-bytes}
use nexus_fix.Messages.Fix44.Reads.{IsPlain}
use nexus_fix.Messages.Fix44.Plain.{
  plain-to_digits, plain-decimal, plain-six_digits, plain-format_checksum,
}
use nexus_fix.Messages.Fix44.Headed.{IsSendable}
use nexus_fix.Messages.Fix44.Positions.{all_plain, ends, length-ends, scan_positions-render}
use nexus_fix.Messages.Fix44.Views.{view, is_inner, parse_fields-render}
use nexus_fix.Messages.Fix44.RoundTrip.{
  all_fields, header_of, text_of, type-plain, length_field, build-parse_header,
}

-- The fields of a message in front of its checksum.
abbrev pub inner_fields : Envelope → AdminMessage → Fields
inner_fields e m =
    let fs = all_fields e m in (8, e.begin_string) ∷ (9, six_digits (length (render fs))) ∷ fs

abbrev pub sum_of : Envelope → AdminMessage → ℕ
sum_of e m = calculate_checksum (framed e.begin_string (all_fields e m))

-- All the fields of a message.
abbrev pub sent_fields : Envelope → AdminMessage → Fields
sent_fields e m = inner_fields e m ++ (Tag.check_sum, format_checksum (sum_of e m)) ∷ []

render-append : (xs ys : Fields) → render (xs ++ ys) ≡ render xs ++ render ys
render-append [] ys = refl
render-append ((tag, value) ∷ xs) ys =
    ap (λ z. encode tag value ++ z) (render-append xs ys)
    ∙ sym (append_assoc (encode tag value) (render xs) (render ys))

-- The bytes of all the fields.
framed-render :
    (e : Envelope) (m : AdminMessage)
    → framed e.begin_string (all_fields e m) ++ trailer (sum_of e m) ≡ render (sent_fields e m)
framed-render e m =
    let fs = all_fields e m in
    let first = encode 8 e.begin_string in
    let last = (Tag.check_sum, format_checksum (sum_of e m)) ∷ [] in
    let l = length (render fs) in
    append_assoc first (b'9' ∷ b'=' ∷ (six_digits l ++ soh ∷ render fs)) (trailer (sum_of e m))
    ∙ ap (λ z. first ++ z)
        (length_field l (render fs ++ trailer (sum_of e m))
          ∙ ap (λ z. encode 9 (six_digits l) ++ z)
              (ap (λ z. render fs ++ z)
                  (sym (
                    append-nil (encode 10 (format_checksum (sum_of e m)))
                    ∙ encode-trailer (sum_of e m)))
                ∙ sym (render-append fs last)))

all-append :
    (p : ℕ × Bytes → Bool) (xs ys : Fields)
    → all p xs ≡ true
    → all p ys ≡ true
    → all p (xs ++ ys) ≡ true
unfolding all
all-append p [] ys h k = k
all-append p (x ∷ xs) ys h k = ground (arith, all-append p xs ys)

-- What is known of a field that may be left out.
all-given :
    (p : ℕ × Bytes → Bool) (b : Bool) (tag : ℕ) (value : Bytes)
    → p (tag, value) ≡ true
    → all p (given b tag value) ≡ true
unfolding all
all-given p true tag value h = rw h refl
all-given p false tag value h = refl

length-given : (b : Bool) (tag : ℕ) (value : Bytes) → length (given b tag value) ≤ 1
length-given true tag value = omega arith
length-given false tag value = omega arith

body_count : (m : AdminMessage) → length (body_fields m) ≤ 5
body_count (logon _ _ reset username password) =
    let flagged = given reset 141 (b'Y' ∷ []) in
    let named = given (not (is_empty username)) 553 username in
    let last = given (not (is_empty password)) 554 password in
    omega (
      arith,
      length-append flagged (named ++ last),
      length-append named last,
      length-given reset 141 (b'Y' ∷ []),
      length-given (not (is_empty username)) 553 username,
      length-given (not (is_empty password)) 554 password,
    )
body_count (logout text) = omega (arith, length-given (not (is_empty text)) 58 text)
body_count (heartbeat id) = omega (arith, length-given (not (is_empty id)) 112 id)
body_count (test_request _) = omega arith
body_count (resend_request _ _) = omega arith
body_count (sequence_reset _ gap_fill) = omega (arith, length-given gap_fill 123 (b'Y' ∷ []))
body_count (reject _ tag reason text) =
    let tagged = given (is_positive tag) 371 (decimal tag) in
    let reasoned = given (is_positive reason) 373 (decimal reason) in
    let last = given (not (is_empty text)) 58 text in
    omega (
      arith,
      length-append tagged (reasoned ++ last),
      length-append reasoned last,
      length-given (is_positive tag) 371 (decimal tag),
      length-given (is_positive reason) 373 (decimal reason),
      length-given (not (is_empty text)) 58 text,
    )

body_inner : (m : AdminMessage) → all is_inner (body_fields m) ≡ true
unfolding all
body_inner (logon _ _ reset username password) =
    all-append is_inner (given reset 141 (b'Y' ∷ [])) _
      (all-given is_inner reset 141 (b'Y' ∷ []) refl)
      (all-append is_inner (given (not (is_empty username)) 553 username) _
        (all-given is_inner (not (is_empty username)) 553 username refl)
        (all-given is_inner (not (is_empty password)) 554 password refl))
body_inner (logout text) = all-given is_inner (not (is_empty text)) 58 text refl
body_inner (heartbeat id) = all-given is_inner (not (is_empty id)) 112 id refl
body_inner (test_request _) = refl
body_inner (resend_request _ _) = refl
body_inner (sequence_reset _ gap_fill) = all-given is_inner gap_fill 123 (b'Y' ∷ []) refl
body_inner (reject _ tag reason text) =
    all-append is_inner (given (is_positive tag) 371 (decimal tag)) _
      (all-given is_inner (is_positive tag) 371 (decimal tag) refl)
      (all-append is_inner (given (is_positive reason) 373 (decimal reason)) _
        (all-given is_inner (is_positive reason) 373 (decimal reason) refl)
        (all-given is_inner (not (is_empty text)) 58 text refl))

abbrev is_plain : ℕ × Bytes → Bool
is_plain f = all (λ c. not (c == soh)) f.1

plain_both : (xs ys : Bytes) → IsPlain (xs ++ ys) → IsPlain xs × IsPlain ys
unfolding all
plain_both [] ys h = (refl, h)
plain_both (x ∷ xs) ys h =
    let (first, second) = plain_both xs ys (ground arith) in (ground arith, second)

body_plain : (m : AdminMessage) → IsPlain (text_of m) → all_plain (body_fields m) ≡ true
unfolding all
body_plain (logon method interval reset username password) h =
    let flagged = given reset 141 (b'Y' ∷ []) in
    let named = given (not (is_empty username)) 553 username in
    let last = given (not (is_empty password)) 554 password in
    let (first, second) = plain_both username password h in
    let h1 = all-given is_plain reset 141 (b'Y' ∷ []) refl in
    let h2 = all-given is_plain (not (is_empty username)) 553 username first in
    let h3 = all-given is_plain (not (is_empty password)) 554 password second in
    ground (
      arith,
      plain-decimal method,
      plain-decimal interval,
      all-append is_plain flagged (named ++ last) h1 (all-append is_plain named last h2 h3),
    )
body_plain (logout text) h = all-given is_plain (not (is_empty text)) 58 text h
body_plain (heartbeat id) h = all-given is_plain (not (is_empty id)) 112 id h
body_plain (test_request id) h = ground arith
body_plain (resend_request begin end) h = ground (arith, plain-to_digits begin, plain-to_digits end)
body_plain (sequence_reset new gap_fill) h =
    ground (arith, plain-to_digits new, all-given is_plain gap_fill 123 (b'Y' ∷ []) refl)
body_plain (reject seq tag reason text) h =
    let tagged = given (is_positive tag) 371 (decimal tag) in
    let reasoned = given (is_positive reason) 373 (decimal reason) in
    let last = given (not (is_empty text)) 58 text in
    let h1 = all-given is_plain (is_positive tag) 371 (decimal tag) (plain-decimal tag) in
    let h2 = all-given is_plain (is_positive reason) 373 (decimal reason) (plain-decimal reason) in
    let h3 = all-given is_plain (not (is_empty text)) 58 text h in
    ground (
      arith,
      plain-to_digits seq,
      all-append is_plain tagged (reasoned ++ last) h1 (all-append is_plain reasoned last h2 h3),
    )

module _ (e : Envelope) (m : AdminMessage) (v : IsSendable e) (plain : IsPlain (text_of m)) where
  inner_plain : all_plain (inner_fields e m) ≡ true
  unfolding all
  inner_plain = ground (
    arith,
    v.begin_string,
    plain-six_digits (length (render (all_fields e m))),
    type-plain m,
    v.sender_comp_id,
    v.target_comp_id,
    plain-to_digits e.msg_seq_num,
    v.sending_time,
    body_plain m plain,
  )

  sent_plain : all_plain (sent_fields e m) ≡ true
  unfolding all
  sent_plain =
      all-append is_plain (inner_fields e m) _ inner_plain
        (ground (arith, plain-format_checksum (sum_of e m)))

  sent_count : length (sent_fields e m) ≤ 13
  sent_count = omega (
    arith,
    length-append (body_fields m) ((Tag.check_sum, format_checksum (sum_of e m)) ∷ []),
    body_count m,
  )

  module _ (a : MessageAssembler) (h : (build a e m).truncated ≡ false) where
    abbrev bytes : Bytes
    bytes = (build a e m).buffer

    bytes-framed : bytes ≡ framed e.begin_string (all_fields e m) ++ trailer (sum_of e m)
    bytes-framed =
        ap (λ (z : MessageAssembler). z.buffer) (build-assemble a e m)
        ∙ assemble-bytes a e.begin_string (all_fields e m) (rw (build-assemble a e m) at h)

    bytes-render : bytes ≡ render (sent_fields e m)
    bytes-render = bytes-framed ∙ framed-render e m

    last_byte-bytes : last_byte bytes ≡ soh
    unfolding format_checksum
    last_byte-bytes =
        let body = framed e.begin_string (all_fields e m) in
        rw bytes-framed (
          get_or-behind body (trailer (sum_of e m)) _ 6 0
            (omega (arith, length-message body (sum_of e m))))

    soh_positions : scan_positions max_soh_positions bytes 0 ≡ ends 0 (sent_fields e m)
    soh_positions =
        ap (λ z. scan_positions max_soh_positions z 0) bytes-render
        ∙ scan_positions-render max_soh_positions 0 (sent_fields e m) sent_plain
            (omega (arith, sent_count)) (omega (arith, build-bound a e m, ap length bytes-render))

    -- Every session-level message that a builder finishes without dropping a byte is accepted
    -- by `parse`, if its texts hold no SOH, its begin string and the two names are not empty,
    -- and its number is from 1 to 2^32 - 1. The parsed message has the bytes as they were
    -- built, the header that was asked for, with the length of the body, and as its fields
    -- exactly BeginString, BodyLength, those of the header, those that were asked for in the
    -- order of the builder, and CheckSum.
    pub parse-build :
        parse bytes
        ≡ ok (record { raw = bytes; header = header_of e m; fields = map view (sent_fields e m) })
    unfolding parse scan_soh check_truncation all
    parse-build =
        let (start, headed, sized, summed) = build-parse_header e m v a plain h in
        let ended : (not (is_empty bytes) && not (last_byte bytes == soh)) ≡ false =
          ground (arith, last_byte-bytes) in
        let few : ltb (length (ends 0 (sent_fields e m))) max_soh_positions ≡ true =
          ground (arith, sent_count, length-ends 0 (sent_fields e m)) in
        let inner : all is_inner (inner_fields e m) ≡ true = ground (arith, body_inner m) in
        let fields =
          parse_fields-render bytes [] 0 (inner_fields e m) (format_checksum (sum_of e m)) inner
            (omega (arith, body_count m)) bytes-render in
        rw (ended, parse)
          (rw headed (rw sized (rw soh_positions (rw few (rw fields (rw summed refl))))))
