-- ===== src/Messages/Fix44/RoundTrip.antt =====
-- include/nexusfix/messages/fix44 against include/nexusfix/parser: a parser takes from a built message
-- the header that the message was built with.
use nexus_fix.Base.{
  ℕ, ◌≤◌, ◌<◌, ◌≡◌, refl, sym, ap, ◌∙◌, true, false, [], ◌∷◌, ◌++◌, arith, leb, none, ◌==◌, Bytes,
  length, length-append, all, subst,
}
use mathlib.Core.List.{append-nil, append_assoc}
use nexus_fix.Base.Words.{pos, max_int}
use nexus_fix.Types.{
  soh, equals, ok, format_checksum, calculate_checksum, MessageHeader, empty_header,
}
use nexus_fix.Parser.Header.{header_bit, parse_header}
use nexus_fix.Parser.Frame.{validate_body_length, validate_checksum}
use nexus_fix.Messages.Assembler.{MessageAssembler, digits_loop, reverse_onto, to_digits}
use nexus_fix.Messages.Assembler.Appended.{encode}
use nexus_fix.Messages.Assembler.Checksum.{trailer, encode-trailer}
use nexus_fix.Messages.Assembler.Decimal.{value}
use nexus_fix.Messages.Fix44.{Envelope}
use nexus_fix.Messages.Fix44.Fields.{
  Fields, AdminMessage, logon, logout, heartbeat, test_request, resend_request, sequence_reset,
  reject, build, type_of, decimal, header_fields, body_fields, build-assemble,
}
use nexus_fix.Messages.Fix44.Valid.{build-checksum, build-bound}
use nexus_fix.Messages.Fix44.Written.{render, six_digits, framed, assemble-bytes}
use nexus_fix.Messages.Fix44.Reads.{IsPlain}
use nexus_fix.Messages.Fix44.Sized.{length-framed, framed-body_length}
use nexus_fix.Messages.Fix44.Plain.{plain-to_digits, plain-decimal, plain-format_checksum}
use nexus_fix.Messages.Fix44.Headed.{IsSendable, fields_before, parse_header-fields}

abbrev pub all_fields : Envelope → AdminMessage → Fields
all_fields e m = header_fields e (type_of m) ++ body_fields m

-- The header that a built message carries.
abbrev pub header_of : Envelope → AdminMessage → MessageHeader
header_of e m = record empty_header {
  begin_string = e.begin_string;
  body_length = pos (length (render (all_fields e m)));
  msg_type = type_of m;
  sender_comp_id = e.sender_comp_id;
  target_comp_id = e.target_comp_id;
  msg_seq_num = e.msg_seq_num;
  sending_time = e.sending_time;
}

-- The texts that a message carries.
abbrev pub text_of : AdminMessage → Bytes
text_of (logon _ _ _ username password) = username ++ password
text_of (logout text) = text
text_of (heartbeat id) = id
text_of (test_request id) = id
text_of (resend_request _ _) = []
text_of (sequence_reset _ _) = []
text_of (reject _ _ _ text) = text

-- The bytes of fields, with others behind them.
abbrev onto : Fields → Bytes → Bytes
onto [] r = r
onto ((tag, value) ∷ fs) r = encode tag value ++ onto fs r

render-onto : (fs : Fields) (r : Bytes) → render fs ++ r ≡ onto fs r
render-onto [] r = refl
render-onto ((tag, value) ∷ fs) r =
    append_assoc (encode tag value) (render fs) r
    ∙ ap (λ z. encode tag value ++ z) (render-onto fs r)

-- The bytes begin with a field that is no header field.
record Opens (bytes : Bytes) : Type 0 where
  tag : ℕ
  value : Bytes
  rest : Bytes
  split : encode tag value ++ rest ≡ bytes
  bit : header_bit tag ≡ none
  fits : tag ≤ max_int
  used : (tag == 0) ≡ false
  plain : IsPlain value

opens :
    (tag : ℕ) (value rest : Bytes)
    → header_bit tag ≡ none
    → leb tag max_int ≡ true
    → (tag == 0) ≡ false
    → IsPlain value
    → Opens (encode tag value ++ rest)
opens tag value rest bit fits used plain = record {
  tag = tag;
  value = value;
  rest = rest;
  split = refl;
  bit = bit;
  fits = ground arith;
  used = used;
  plain = plain;
}

trailer-Opens : (sum : ℕ) → Opens (trailer sum)
unfolding header_bit
trailer-Opens sum =
    subst Opens (append-nil (encode 10 (format_checksum sum)) ∙ encode-trailer sum)
      (opens 10 (format_checksum sum) [] refl refl refl (plain-format_checksum sum))

body-Opens :
    (m : AdminMessage) (sum : ℕ) → IsPlain (text_of m) → Opens (onto (body_fields m) (trailer sum))
unfolding header_bit
body-Opens (logon method interval reset username password) sum h =
    opens 98 (decimal method) _ refl refl refl (plain-decimal method)
body-Opens (logout []) sum h = trailer-Opens sum
body-Opens (logout (c ∷ cs)) sum h = opens 58 (c ∷ cs) _ refl refl refl h
body-Opens (heartbeat []) sum h = trailer-Opens sum
body-Opens (heartbeat (c ∷ cs)) sum h = opens 112 (c ∷ cs) _ refl refl refl h
body-Opens (test_request id) sum h = opens 112 id _ refl refl refl h
body-Opens (resend_request begin end) sum h =
    opens 7 (to_digits begin) _ refl refl refl (plain-to_digits begin)
body-Opens (sequence_reset new gap_fill) sum h =
    opens 36 (to_digits new) _ refl refl refl (plain-to_digits new)
body-Opens (reject seq tag reason text) sum h =
    opens 45 (to_digits seq) _ refl refl refl (plain-to_digits seq)

pub type-plain : (m : AdminMessage) → IsPlain (type_of m ∷ [])
unfolding all
type-plain (logon _ _ _ _ _) = refl
type-plain (logout _) = refl
type-plain (heartbeat _) = refl
type-plain (test_request _) = refl
type-plain (resend_request _ _) = refl
type-plain (sequence_reset _ _) = refl
type-plain (reject _ _ _ _) = refl

type-nonzero : (m : AdminMessage) → (type_of m == 0) ≡ false
type-nonzero (logon _ _ _ _ _) = refl
type-nonzero (logout _) = refl
type-nonzero (heartbeat _) = refl
type-nonzero (test_request _) = refl
type-nonzero (resend_request _ _) = refl
type-nonzero (sequence_reset _ _) = refl
type-nonzero (reject _ _ _ _) = refl

pub length_field :
    (l : ℕ) (r : Bytes) → b'9' ∷ equals ∷ (six_digits l ++ soh ∷ r) ≡ encode 9 (six_digits l) ++ r
unfolding to_digits digits_loop reverse_onto
length_field l r = refl

length-encode_type : (type : ℕ) (r : Bytes) → 0 < length (encode 35 (type ∷ []) ++ r)
unfolding to_digits digits_loop reverse_onto
length-encode_type type r = omega arith

module _ (e : Envelope) (m : AdminMessage) (v : IsSendable e) where
  abbrev fs : Fields
  fs = all_fields e m

  abbrev l : ℕ
  l = length (render fs)

  framed-fields_before :
      (r : Bytes)
      → framed e.begin_string fs ++ r ≡ fields_before e (type_of m) l v (onto (body_fields m) r)
  framed-fields_before r =
      let first = encode 8 e.begin_string in
      append_assoc first (b'9' ∷ equals ∷ (six_digits l ++ soh ∷ render fs)) r
      ∙ ap (λ z. first ++ z)
          (length_field l (render fs ++ r)
            ∙ ap (λ z. encode 9 (six_digits l) ++ z) (render-onto fs r))

  -- What a session-level message says of itself when it is parsed again.
  pub build-parse_header :
      (a : MessageAssembler)
      → IsPlain (text_of m)
      → (build a e m).truncated ≡ false
      → (body_start : ℕ) × (parse_header (build a e m).buffer ≡ ok (header_of e m, body_start))
        × (validate_body_length (build a e m).buffer (header_of e m).body_length ≡ ok tt)
        × (validate_checksum (build a e m).buffer ≡ ok tt)
  build-parse_header a plain h =
      let sum = calculate_checksum (framed e.begin_string fs) in
      let bytes : (build a e m).buffer ≡ framed e.begin_string fs ++ trailer sum =
        ap (λ (z : MessageAssembler). z.buffer) (build-assemble a e m)
        ∙ assemble-bytes a e.begin_string fs (rw (build-assemble a e m) at h) in
      let small : l < 1_000_000 = omega (
        arith,
        build-bound a e m,
        ap length bytes,
        length-append (framed e.begin_string fs) (trailer sum),
        length-framed e.begin_string fs,
      ) in
      let some_body : 0 < l = length-encode_type (type_of m) _ in
      let o = body-Opens m sum plain in
      let (start, read) =
        parse_header-fields e (type_of m) l v o.tag o.value o.rest (type-plain m) (type-nonzero m)
          small some_body o.bit o.fits o.used o.plain in
      let whole : fields_before e (type_of m) l v (encode o.tag o.value ++ o.rest)
          ≡ (build a e m).buffer =
        ap (fields_before e (type_of m) l v) o.split
        ∙ sym (framed-fields_before (trailer sum))
        ∙ sym bytes in
      (
        start,
        rw whole at read,
        rw bytes (framed-body_length e.begin_string fs sum v.begin_string some_body),
        build-checksum a e m h,
      )
