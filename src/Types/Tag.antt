-- ===== src/Types/Tag.antt =====
-- include/nexusfix/types/tag.hpp: the tags that the session layer and the header parser name.
use nexus_fix.Base.{ℕ}

abbrev pub begin_string : ℕ
begin_string = 8

abbrev pub body_length : ℕ
body_length = 9

abbrev pub check_sum : ℕ
check_sum = 10

abbrev pub msg_seq_num : ℕ
msg_seq_num = 34

abbrev pub msg_type : ℕ
msg_type = 35

abbrev pub poss_dup_flag : ℕ
poss_dup_flag = 43

abbrev pub ref_seq_num : ℕ
ref_seq_num = 45

abbrev pub sender_comp_id : ℕ
sender_comp_id = 49

abbrev pub sending_time : ℕ
sending_time = 52

abbrev pub target_comp_id : ℕ
target_comp_id = 56

abbrev pub text : ℕ
text = 58

abbrev pub poss_resend : ℕ
poss_resend = 97

abbrev pub test_req_id : ℕ
test_req_id = 112

abbrev pub orig_sending_time : ℕ
orig_sending_time = 122
