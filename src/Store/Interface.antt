-- ===== src/Store/Interface.antt =====
-- include/nexusfix/store/i_message_store.hpp: what a session asks of a store, as a record of
-- operations over the store's state, and the store that keeps nothing.
use nexus_fix.Base.{ℕ, Bool, true, List, [], Option, none, some, Bytes}

-- `none` as the result of `retrieve_range` is a call that does not return.
pub record IMessageStore (S : Type 0) : Type 0 where
  pub store : S → ℕ → Bytes → Bool × S
  pub retrieve : S → ℕ → Option Bytes × S
  pub retrieve_range : S → ℕ → ℕ → Option (List Bytes × S)
  pub set_next_sender_seq_num : S → ℕ → S
  pub set_next_target_seq_num : S → ℕ → S
  pub get_next_sender_seq_num : S → ℕ
  pub get_next_target_seq_num : S → ℕ
  pub reset : S → S

pub record Stats : Type 0 where
  pub messages_stored : ℕ
  pub messages_retrieved : ℕ
  pub bytes_stored : ℕ
  pub store_failures : ℕ

abbrev pub no_stats : Stats
no_stats = record {
  messages_stored = 0;
  messages_retrieved = 0;
  bytes_stored = 0;
  store_failures = 0;
}

pub record NullMessageStore : Type 0 where
  pub next_sender_seq : ℕ
  pub next_target_seq : ℕ

abbrev pub null_store : IMessageStore NullMessageStore
null_store = record {
  store = λ s seq msg. (true, s);
  retrieve = λ s seq. (none, s);
  retrieve_range = λ s begin end. some ([], s);
  set_next_sender_seq_num = λ s seq. record s { next_sender_seq = seq };
  set_next_target_seq_num = λ s seq. record s { next_target_seq = seq };
  get_next_sender_seq_num = λ s. s.next_sender_seq;
  get_next_target_seq_num = λ s. s.next_target_seq;
  reset = λ s. record { next_sender_seq = 1; next_target_seq = 1 };
}
