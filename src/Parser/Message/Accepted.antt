-- ===== src/Parser/Message/Accepted.antt =====
-- What is known of a message that `parse` accepts.
use nexus_fix.Base.{
  ℕ, ◌+◌, ◌-◌, ◌*◌, ◌/◌, ◌≤◌, ◌≡◌, ◌≢◌, refl, sym, ap, ◌∙◌, Bool, true, false, not, ◌&&◌, ◌||◌,
  List, [], ◌∷◌, ◌++◌, arith, ltb, leb, ◌==◌, if◌then◌else◌, Bytes, length, length-append, is_empty,
  all, drop, subst, inl, inr, Bool-cases,
}
use mathlib.Core.Bool.{false≢true}
use nexus_fix.Base.Words.{ℤ, pos, max_int}
use nexus_fix.Types.{
  MessageHeader, ok, err, buffer_too_short, unterminated_field, invalid_tag_number,
  invalid_field_format, field_count_exceeded, soh, min_message_size,
}
use nexus_fix.Types.Results.{passes, bind-ok, ok-injective, ParseResult-cases, err≢ok}
use nexus_fix.Types.Tag
use nexus_fix.Parser.FieldView.{FieldView, is_digit, iterate}
use nexus_fix.Parser.Frame.{validate_checksum, validate_body_length}
use nexus_fix.Parser.Header.{
  check_required, parse_header, is_zero, header_loop, header_fuel, start_state,
}
use nexus_fix.Parser.Message.{
  ParsedMessage, parse, parse_field, parse_fields, tag_loop, max_fields, last_byte, scan_soh, slice,
  find_equals,
}

-- The fields without which `check_required` accepts no header.
pub record HasRequired (h : MessageHeader) : Type 0 where
  pub begin_string : is_empty h.begin_string ≡ false
  pub body_length : h.body_length ≢ pos 0
  pub msg_type : h.msg_type ≢ 0
  pub sender_comp_id : is_empty h.sender_comp_id ≡ false
  pub target_comp_id : is_empty h.target_comp_id ≡ false
  pub msg_seq_num : h.msg_seq_num ≢ 0

is_zero-pos : (n : ℤ) → is_zero n ≡ false → n ≢ pos 0
is_zero-pos n h e = false≢true (sym h ∙ ap is_zero e)

nonzero : (n : ℕ) → (n == 0) ≡ false → n ≢ 0
nonzero n h e = ground arith

check_required_sound : (h h' : MessageHeader) → check_required h ≡ ok h' → (h ≡ h') × HasRequired h
unfolding check_required
check_required_sound h h' e =
    let (a, e) = passes _ _ _ _ _ _ e in
    let (b, e) = passes _ _ _ _ _ _ e in
    let (c, e) = passes _ _ _ _ _ _ e in
    let (d, e) = passes _ _ _ _ _ _ e in
    let (f, e) = passes _ _ _ _ _ _ e in
    let (g, e) = passes _ _ _ _ _ _ e in
    (
      ok-injective h h' e,
      record {
        begin_string = a;
        body_length = is_zero-pos h.body_length b;
        msg_type = nonzero h.msg_type c;
        sender_comp_id = d;
        target_comp_id = f;
        msg_seq_num = nonzero h.msg_seq_num g;
      },
    )

-- No tag overflows an `int`.
tag_loop-bound : (cs : Bytes) (tag j t : ℕ) → tag ≤ max_int → tag_loop cs tag j ≡ ok t → t ≤ max_int
unfolding tag_loop
tag_loop-bound [] tag j t h e = ground (arith, ok-injective tag t e)
tag_loop-bound (c ∷ cs) tag j t h e =
    let (a, e) =
      passes (not (is_digit c) || ltb ((max_int - (c - b'0')) / 10) tag) invalid_tag_number 0 j
        (tag_loop cs (tag * 10 + (c - b'0')) (j + 1)) t e in
    tag_loop-bound cs (tag * 10 + (c - b'0')) (j + 1) t (ground arith) e

parse_field-bound :
    (bytes : Bytes) (start end : ℕ) (f : FieldView)
    → parse_field bytes start end ≡ ok f
    → f.tag ≤ max_int
unfolding parse_field
parse_field-bound bytes start end f e =
    let eq_pos = find_equals (drop start bytes) start in
    let (_, e) = passes (leb end eq_pos) invalid_field_format 0 start _ f e in
    let (_, e) = passes (eq_pos == start) invalid_field_format 0 start _ f e in
    let (t, a, b) = bind-ok (tag_loop (slice bytes start eq_pos) 0 start) _ f e in
    subst (λ (g : FieldView). g.tag ≤ max_int) (ok-injective _ f b)
      (tag_loop-bound (slice bytes start eq_pos) 0 start t (omega arith) a)

abbrev pub tag_fits : FieldView → Bool
tag_fits f = leb f.tag max_int

all-snoc :
    (fs : List FieldView) (f : FieldView)
    → all tag_fits fs ≡ true
    → f.tag ≤ max_int
    → all tag_fits (fs ++ f ∷ []) ≡ true
unfolding all
all-snoc [] f a h = ground arith
all-snoc (g ∷ gs) f a h = ground (arith, all-snoc gs f)

parse_fields-Fits :
    (bytes : Bytes) (fs gs : List FieldView) (start : ℕ) (positions : List ℕ)
    → all tag_fits fs ≡ true
    → length fs ≤ max_fields
    → parse_fields bytes fs start positions ≡ ok gs
    → (length gs ≤ max_fields) × (all tag_fits gs ≡ true)
unfolding parse_fields
parse_fields-Fits bytes fs gs start [] a l e =
    subst (λ hs. (length hs ≤ max_fields) × (all tag_fits hs ≡ true)) (ok-injective fs gs e) (l, a)
parse_fields-Fits bytes fs gs start (p ∷ ps) a l e =
    elim (ParseResult-cases (parse_field bytes start p)) [
      | inr (code, tag, offset, failed) ↦
          absurd (err≢ok code tag offset gs (rw (failed, parse_fields) at e))
      | inl (f, read) ↦
          let more = fs ++ f ∷ [] in
          let (free, e) =
            passes (leb max_fields (length fs)) field_count_exceeded f.tag start _ gs
              (rw (read, parse_fields) at e) in
          let a' = all-snoc fs f a (parse_field-bound bytes start p f read) in
          let l' : length more ≤ max_fields = ground (arith, length-append fs (f ∷ [])) in
          elim (Bool-cases (f.tag == Tag.check_sum)) [
            | inl last ↦
                subst (λ hs. (length hs ≤ max_fields) × (all tag_fits hs ≡ true))
                  (ok-injective more gs (rw last at e)) (l', a')
            | inr inner ↦ parse_fields-Fits bytes more gs (p + 1) ps a' l' (rw inner at e)
          ]
    ]

pub record IsAccepted (bytes : Bytes) (m : ParsedMessage) : Type 0 where
  pub raw : m.raw ≡ bytes
  pub long : min_message_size ≤ length bytes
  pub terminated : last_byte bytes ≡ soh
  pub required : HasRequired m.header
  pub body_length : validate_body_length bytes m.header.body_length ≡ ok tt
  pub check_sum : validate_checksum bytes ≡ ok tt
  pub count : length m.fields ≤ max_fields
  pub tags : all tag_fits m.fields ≡ true

parse_header_sound :
    (bytes : Bytes) (h : MessageHeader) (body_start : ℕ)
    → parse_header bytes ≡ ok (h, body_start)
    → (min_message_size ≤ length bytes) × HasRequired h
unfolding parse_header
parse_header_sound bytes h body_start e =
    let (long, e) =
      passes (ltb (length bytes) min_message_size) buffer_too_short 0 0 _ (h, body_start) e in
    let ((s, it), _, e) =
      bind-ok (header_loop (header_fuel bytes) start_state (iterate bytes)) _ (h, body_start) e in
    let (h', checked, e) = bind-ok (check_required s.header) _ (h, body_start) e in
    let (same, required) = check_required_sound s.header h' checked in
    (
      ground (arith, long),
      subst HasRequired
          (same ∙ ap (λ (p : MessageHeader × ℕ). p.0) (ok-injective _ (h, body_start) e)) required,
    )

last_byte-soh :
    (bytes : Bytes)
    → min_message_size ≤ length bytes
    → (not (is_empty bytes) && not (last_byte bytes == soh)) ≡ false
    → last_byte bytes ≡ soh
last_byte-soh [] h e = absurd (omega arith)
last_byte-soh (c ∷ cs) h e = ground arith

-- A message that `parse` accepts is at least as long as the shortest message and ends with SOH;
-- its header has a begin string, a body length, a message type, a sender, a target and a
-- sequence number, which are all fields that the parser requires; its body length and its
-- checksum pass their tests; and its fields are at most 128, each with a tag that fits an
-- `int`.
pub parse-IsAccepted : (bytes : Bytes) (m : ParsedMessage) → parse bytes ≡ ok m → IsAccepted bytes m
unfolding parse all
parse-IsAccepted bytes m e =
    let positions = scan_soh bytes in
    let fields = parse_fields bytes [] 0 positions.positions in
    let (ended, e) =
      passes (not (is_empty bytes) && not (last_byte bytes == soh)) unterminated_field 0
        (length bytes - 1) _ m e in
    let ((header, body_start), headed, e) = bind-ok (parse_header bytes) _ m e in
    let (sized, valid, e) = bind-ok (validate_body_length bytes header.body_length) _ m e in
    let (fs, read, e) =
      bind-ok (if positions.truncated then err field_count_exceeded 0 0 else fields) _ m e in
    let (summed, checked, e) = bind-ok (validate_checksum bytes) _ m e in
    let (_, read) = passes positions.truncated field_count_exceeded 0 0 fields fs read in
    let (count, tags) =
      parse_fields-Fits bytes [] fs 0 positions.positions refl (omega arith) read in
    let (long, required) = parse_header_sound bytes header body_start headed in
    subst (IsAccepted bytes) (ok-injective _ m e) (record {
      raw = refl;
      long = long;
      terminated = last_byte-soh bytes long ended;
      required = required;
      body_length = valid;
      check_sum = checked;
      count = count;
      tags = tags;
    })
