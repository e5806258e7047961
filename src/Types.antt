-- ===== src/Types.antt =====
-- include/nexusfix/types and include/nexusfix/interfaces: error codes, message types, the header and
-- the constants of the protocol. A `char` is the number of its byte.
pub mod Fixed
pub mod Tag
pub mod MsgType
pub mod Results
use nexus_fix.Base.{
  ℕ, ◌+◌, ◌/◌, ◌%◌, ◌^◌, Bool, true, false, ◌||◌, List, [], ◌∷◌, Option, none, some, ltb, ◌==◌,
  if◌then◌else◌, Bytes,
}
use nexus_fix.Base.Words.{ℤ, pos}

pub data ParseErrorCode : Type 0 where
  no_error buffer_too_short invalid_begin_string invalid_body_length : ParseErrorCode
  invalid_checksum missing_required_field invalid_field_format : ParseErrorCode
  invalid_tag_number duplicate_tag unterminated_field invalid_msg_type : ParseErrorCode
  garbled_message overflow_exhausted body_length_mismatch field_count_exceeded : ParseErrorCode

pub record ParseError : Type 0 where
  pub code : ParseErrorCode
  pub tag : ℕ
  pub offset : ℕ

-- `std::expected<T, ParseError>`
pub data ParseResult {ℓ} (A : Type ℓ) : Type ℓ where
  ok : A → ParseResult A
  err : ParseErrorCode → ℕ → ℕ → ParseResult A

infixl 5 ◌>>=◌ ◌>>◌
abbrev pub ◌>>=◌ {ℓ κ} :
    {A : Type ℓ} {B : Type κ} → ParseResult A → (A → ParseResult B) → ParseResult B
ok a >>= f = f a
err code tag offset >>= f = err code tag offset

abbrev pub ◌>>◌ {ℓ} : {B : Type ℓ} → ParseResult (Unit {0}) → ParseResult B → ParseResult B
m >> k = m >>= λ _. k

pub data SessionErrorCode : Type 0 where
  no_failure not_connected already_connected logon_rejected logon_timeout : SessionErrorCode
  heartbeat_timeout sequence_gap invalid_state disconnected : SessionErrorCode
  comp_id_mismatch sending_time_accuracy : SessionErrorCode

-- `fix::SOH` and `fix::EQUALS`
abbrev pub soh : ℕ
soh = 1

abbrev pub equals : ℕ
equals = b'='

abbrev pub min_message_size : ℕ
min_message_size = 20

-- `msg_type::is_admin`: the entry of the lookup table, and false beyond its 128 entries.
unfoldable pub is_admin : ℕ → Bool
is_admin c =
    c == MsgType.heartbeat
    || c == MsgType.test_request
    || c == MsgType.resend_request
    || c == MsgType.reject
    || c == MsgType.sequence_reset
    || c == MsgType.logout
    || c == MsgType.logon

pub record MessageHeader : Type 0 where
  pub begin_string : Bytes
  pub body_length : ℤ
  pub msg_type : ℕ
  pub sender_comp_id : Bytes
  pub target_comp_id : Bytes
  pub msg_seq_num : ℕ
  pub sending_time : Bytes
  pub poss_dup_flag : Bool
  pub poss_resend : Bool
  pub orig_sending_time : Bytes

abbrev pub empty_header : MessageHeader
empty_header = record {
  begin_string = [];
  body_length = pos 0;
  msg_type = 0;
  sender_comp_id = [];
  target_comp_id = [];
  msg_seq_num = 0;
  sending_time = [];
  poss_dup_flag = false;
  poss_resend = false;
  orig_sending_time = [];
}

-- `fix::calculate_checksum`; the sum is a `uint32_t`.
unfoldable pub byte_sum : Bytes → ℕ → ℕ
byte_sum [] sum = sum
byte_sum (c ∷ cs) sum = byte_sum cs ((sum + c % 256) % 2 ^ 32)

unfoldable pub calculate_checksum : Bytes → ℕ
calculate_checksum bytes = byte_sum bytes 0 % 256

unfoldable pub format_checksum : ℕ → Bytes
format_checksum sum = (b'0' + sum / 100) ∷ (b'0' + sum / 10 % 10) ∷ (b'0' + sum % 10) ∷ []
