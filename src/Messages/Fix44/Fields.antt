-- ===== src/Messages/Fix44/Fields.antt =====
-- The session-level messages as lists of fields, and what every builder of
-- include/nexusfix/messages/fix44 has in common.
use nexus_fix.Base.{
  ℕ, ◌+◌, ◌≡◌, refl, Bool, true, false, not, List, [], ◌∷◌, ◌++◌, if◌then◌else◌, Bytes, is_empty,
  ap, ◌∙◌,
}
use nexus_fix.Base.Words.{ℤ, pos, negsuc}
use nexus_fix.Types.MsgType
use nexus_fix.Messages.Assembler.{
  MessageAssembler, append_field, start, field_int, finish, to_digits,
}
use nexus_fix.Messages.Fix44.{
  Envelope, open_message, optional_field, is_positive, build_logon, build_logout, build_heartbeat,
  build_test_request, build_resend_request, build_sequence_reset, build_reject,
}

abbrev pub Fields : Type 0
Fields = List (ℕ × Bytes)

unfoldable pub append_all : MessageAssembler → Fields → MessageAssembler
append_all a [] = a
append_all a ((tag, value) ∷ fs) = append_all (append_field a tag value) fs

-- A message with these fields behind BeginString and BodyLength.
unfoldable pub assemble : MessageAssembler → Bytes → Fields → MessageAssembler
assemble a begin_string fs = finish (append_all (start a begin_string) fs)

-- The session-level messages.
pub data AdminMessage : Type 0 where
  logon : ℤ → ℤ → Bool → Bytes → Bytes → AdminMessage
  logout : Bytes → AdminMessage
  heartbeat : Bytes → AdminMessage
  test_request : Bytes → AdminMessage
  resend_request : ℕ → ℕ → AdminMessage
  sequence_reset : ℕ → Bool → AdminMessage
  reject : ℕ → ℤ → ℤ → Bytes → AdminMessage

-- The builder of each.
unfoldable pub build : MessageAssembler → Envelope → AdminMessage → MessageAssembler
build a e (logon encrypt_method heart_bt_int reset username password) =
    build_logon a e encrypt_method heart_bt_int reset username password
build a e (logout text) = build_logout a e text
build a e (heartbeat id) = build_heartbeat a e id
build a e (test_request id) = build_test_request a e id
build a e (resend_request begin end) = build_resend_request a e begin end
build a e (sequence_reset new gap_fill) = build_sequence_reset a e new gap_fill
build a e (reject seq tag reason text) = build_reject a e seq tag reason text

abbrev pub type_of : AdminMessage → ℕ
type_of (logon _ _ _ _ _) = MsgType.logon
type_of (logout _) = MsgType.logout
type_of (heartbeat _) = MsgType.heartbeat
type_of (test_request _) = MsgType.test_request
type_of (resend_request _ _) = MsgType.resend_request
type_of (sequence_reset _ _) = MsgType.sequence_reset
type_of (reject _ _ _ _) = MsgType.reject

-- An integer as text.
abbrev pub decimal : ℤ → Bytes
decimal (pos n) = to_digits n
decimal (negsuc n) = b'-' ∷ to_digits (n + 1)

abbrev pub header_fields : Envelope → ℕ → Fields
header_fields e type =
    (35, type ∷ [])
    ∷ (49, e.sender_comp_id)
    ∷ (56, e.target_comp_id)
    ∷ (34, to_digits e.msg_seq_num)
    ∷ (52, e.sending_time)
    ∷ []

abbrev pub given : Bool → ℕ → Bytes → Fields
given b tag value = if b then (tag, value) ∷ [] else []

-- The fields behind the header, as the protocol lists them.
abbrev pub body_fields : AdminMessage → Fields
body_fields (logon encrypt_method heart_bt_int reset username password) =
    (98, decimal encrypt_method)
    ∷ (108, decimal heart_bt_int)
    ∷ (given reset 141 (b'Y' ∷ [])
        ++ (given (not (is_empty username)) 553 username
            ++ given (not (is_empty password)) 554 password))
body_fields (logout text) = given (not (is_empty text)) 58 text
body_fields (heartbeat id) = given (not (is_empty id)) 112 id
body_fields (test_request id) = (112, id) ∷ []
body_fields (resend_request begin end) = (7, to_digits begin) ∷ (16, to_digits end) ∷ []
body_fields (sequence_reset new gap_fill) = (36, to_digits new) ∷ given gap_fill 123 (b'Y' ∷ [])
body_fields (reject seq tag reason text) =
    (45, to_digits seq)
    ∷ (given (is_positive tag) 371 (decimal tag)
        ++ (given (is_positive reason) 373 (decimal reason) ++ given (not (is_empty text)) 58 text))

field_int-append_field :
    (a : MessageAssembler) (tag : ℕ) (v : ℤ) → field_int a tag v ≡ append_field a tag (decimal v)
unfolding field_int
field_int-append_field a tag (pos n) = refl
field_int-append_field a tag (negsuc n) = refl

timed_logon :
    (a : MessageAssembler) (e : Envelope) (x y : ℤ)
    → field_int (field_int (open_message a e MsgType.logon) 98 x) 108 y
      ≡ append_field (append_field (open_message a e MsgType.logon) 98 (decimal x)) 108 (decimal y)
timed_logon a e x y =
    let opened = open_message a e MsgType.logon in
    field_int-append_field (field_int opened 98 x) 108 y
    ∙ ap (λ z. append_field z 108 (decimal y)) (field_int-append_field opened 98 x)

given_int :
    (a : MessageAssembler) (b : Bool) (tag : ℕ) (v : ℤ) (fs : Fields)
    → append_all (if b then field_int a tag v else a) fs
      ≡ append_all a (given b tag (decimal v) ++ fs)
unfolding append_all
given_int a true tag v fs = ap (λ z. append_all z fs) (field_int-append_field a tag v)
given_int a false tag v fs = refl

given_text :
    (a : MessageAssembler) (tag : ℕ) (text : Bytes)
    → optional_field a tag text ≡ append_all a (given (not (is_empty text)) tag text)
unfolding append_all
given_text a tag [] = refl
given_text a tag (c ∷ cs) = refl

given_field :
    (a : MessageAssembler) (b : Bool) (tag : ℕ) (value : Bytes) (fs : Fields)
    → append_all (if b then append_field a tag value else a) fs
      ≡ append_all a (given b tag value ++ fs)
unfolding append_all
given_field a true tag value fs = refl
given_field a false tag value fs = refl

given_text_more :
    (a : MessageAssembler) (tag : ℕ) (text : Bytes) (fs : Fields)
    → append_all (optional_field a tag text) fs
      ≡ append_all a (given (not (is_empty text)) tag text ++ fs)
unfolding append_all
given_text_more a tag [] fs = refl
given_text_more a tag (c ∷ cs) fs = refl

-- Each builder of a session-level message puts together the header and the fields that the
-- protocol lists for the message, in this order, and nothing else.
pub build-assemble :
    (a : MessageAssembler) (e : Envelope) (m : AdminMessage)
    → build a e m ≡ assemble a e.begin_string (header_fields e (type_of m) ++ body_fields m)
unfolding build build_logon build_logout build_heartbeat build_test_request build_resend_request
    build_sequence_reset build_reject assemble append_all open_message field_int
build-assemble a e (logon encrypt_method heart_bt_int reset username password) =
    let opened = open_message a e MsgType.logon in
    let timed = field_int (field_int opened 98 encrypt_method) 108 heart_bt_int in
    let flagged = if reset then append_field timed 141 (b'Y' ∷ []) else timed in
    let named = optional_field flagged 553 username in
    let last = given (not (is_empty password)) 554 password in
    let middle = given (not (is_empty username)) 553 username ++ last in
    ap finish (
      given_text named 554 password
      ∙ given_text_more flagged 553 username last
      ∙ given_field timed reset 141 (b'Y' ∷ []) middle
      ∙ ap (λ z. append_all z (given reset 141 (b'Y' ∷ []) ++ middle))
          (timed_logon a e encrypt_method heart_bt_int))
build-assemble a e (logout []) = refl
build-assemble a e (logout (c ∷ cs)) = refl
build-assemble a e (heartbeat []) = refl
build-assemble a e (heartbeat (c ∷ cs)) = refl
build-assemble a e (test_request id) = refl
build-assemble a e (resend_request begin end) = refl
build-assemble a e (sequence_reset new true) = refl
build-assemble a e (sequence_reset new false) = refl
build-assemble a e (reject seq tag reason text) =
    (let referred = append_field (open_message a e MsgType.reject) 45 (to_digits seq) in
      let tagged = if is_positive tag then field_int referred 371 tag else referred in
      let reasoned = if is_positive reason then field_int tagged 373 reason else tagged in
      let last = given (not (is_empty text)) 58 text in
      ap finish (
        given_text reasoned 58 text
        ∙ given_int tagged (is_positive reason) 373 reason last
        ∙ given_int referred (is_positive tag) 371 tag
            (given (is_positive reason) 373 (decimal reason) ++ last)))
