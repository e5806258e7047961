-- ===== src/Messages/Fix44.antt =====
-- include/nexusfix/messages/fix44/logon.hpp and heartbeat.hpp: the builders of the session-level
-- messages. Each `build` starts the assembler, appends the message's fields and finishes it.
pub mod Fields
pub mod Valid
pub mod Written
pub mod Reads
pub mod Sized
pub mod Plain
pub mod Parsed
pub mod Headed
pub mod Positions
pub mod Views
pub mod RoundTrip
pub mod Whole
use nexus_fix.Base.{ℕ, ◌+◌, ◌∷◌, [], List, Bool, true, false, ltb, if◌then◌else◌, Bytes, is_empty}
use nexus_fix.Base.Words.{ℤ, pos, negsuc}
use nexus_fix.Types.Tag
use nexus_fix.Types.MsgType
use nexus_fix.Messages.Assembler.{MessageAssembler, start, field, field_int, finish}

-- What every builder is given.
pub record Envelope : Type 0 where
  pub begin_string : Bytes
  pub sender_comp_id : Bytes
  pub target_comp_id : Bytes
  pub msg_seq_num : ℕ
  pub sending_time : Bytes

-- `start` and the header fields.
unfoldable pub open_message : MessageAssembler → Envelope → ℕ → MessageAssembler
open_message a e msg_type =
    let started = start a e.begin_string in
    let typed = field started Tag.msg_type (msg_type ∷ []) in
    let sender = field typed Tag.sender_comp_id e.sender_comp_id in
    let target = field sender Tag.target_comp_id e.target_comp_id in
    let numbered = field_int target Tag.msg_seq_num (pos e.msg_seq_num) in
    field numbered Tag.sending_time e.sending_time

-- A field that is left out when its text is empty.
abbrev pub optional_field : MessageAssembler → ℕ → Bytes → MessageAssembler
optional_field a tag value = if is_empty value then a else field a tag value

abbrev pub is_positive : ℤ → Bool
is_positive (pos n) = ltb 0 n
is_positive (negsuc n) = false

unfoldable pub build_logon :
    MessageAssembler → Envelope → ℤ → ℤ → Bool → Bytes → Bytes → MessageAssembler
build_logon a e encrypt_method heart_bt_int reset_seq_num_flag username password =
    let opened = open_message a e MsgType.logon in
    let timed = field_int (field_int opened 98 encrypt_method) 108 heart_bt_int in
    let flagged = if reset_seq_num_flag then field timed 141 (b'Y' ∷ []) else timed in
    finish (optional_field (optional_field flagged 553 username) 554 password)

unfoldable pub build_logout : MessageAssembler → Envelope → Bytes → MessageAssembler
build_logout a e text = finish (optional_field (open_message a e MsgType.logout) Tag.text text)

unfoldable pub build_heartbeat : MessageAssembler → Envelope → Bytes → MessageAssembler
build_heartbeat a e test_req_id =
    finish (optional_field (open_message a e MsgType.heartbeat) Tag.test_req_id test_req_id)

unfoldable pub build_test_request : MessageAssembler → Envelope → Bytes → MessageAssembler
build_test_request a e test_req_id =
    finish (field (open_message a e MsgType.test_request) Tag.test_req_id test_req_id)

unfoldable pub build_resend_request : MessageAssembler → Envelope → ℕ → ℕ → MessageAssembler
build_resend_request a e begin_seq_no end_seq_no =
    let opened = open_message a e MsgType.resend_request in
    finish (field_int (field_int opened 7 (pos begin_seq_no)) 16 (pos end_seq_no))

unfoldable pub build_sequence_reset : MessageAssembler → Envelope → ℕ → Bool → MessageAssembler
build_sequence_reset a e new_seq_no gap_fill_flag =
    let opened = open_message a e MsgType.sequence_reset in
    let renumbered = field_int opened 36 (pos new_seq_no) in
    finish (if gap_fill_flag then field renumbered 123 (b'Y' ∷ []) else renumbered)

unfoldable pub build_reject : MessageAssembler → Envelope → ℕ → ℤ → ℤ → Bytes → MessageAssembler
build_reject a e ref_seq_num ref_tag_id session_reject_reason text =
    let opened = open_message a e MsgType.reject in
    let referred = field_int opened Tag.ref_seq_num (pos ref_seq_num) in
    let tagged = if is_positive ref_tag_id then field_int referred 371 ref_tag_id else referred in
    let reasoned =
      if is_positive session_reject_reason
      then field_int tagged 373 session_reject_reason
      else tagged in
    finish (optional_field reasoned Tag.text text)
