-- ===== src/Messages/Fix44/Headed.antt =====
-- The header fields of a message that include/nexusfix/messages/fix44 builds, as `parse_header` of
-- include/nexusfix/parser/consteval_parser.hpp reads them.
use nexus_fix.Base.{
  ℕ, suc, ◌+◌, ◌-◌, ◌^◌, ◌%◌, ◌≤◌, ◌<◌, ◌≡◌, refl, ap, ◌∙◌, true, false, ◌&&◌, List, [], ◌∷◌, ◌++◌,
  arith, ltb, leb, none, ◌==◌, Bytes, is_empty, length, length-append,
}
use nexus_fix.Base.Words.{pos, max_int}
use nexus_fix.Types.{soh, equals, ok, MessageHeader, empty_header}
use nexus_fix.Parser.FieldView.{has_next, as_char}
use nexus_fix.Parser.Header.{
  HeaderState, start_state, header_bit, has_bit, mark_seen, take_field, header_loop, check_required,
  parse_header,
}
use nexus_fix.Messages.Assembler.{to_digits}
use nexus_fix.Messages.Assembler.Appended.{encode}
use nexus_fix.Messages.Assembler.Decimal.{value, as_uint-to_digits}
use nexus_fix.Messages.Fix44.{Envelope}
use nexus_fix.Messages.Fix44.Written.{six_digits}
use nexus_fix.Messages.Fix44.Reads.{IsPlain}
use nexus_fix.Messages.Fix44.Plain.{plain-to_digits, plain-six_digits, as_int-six_digits}
use nexus_fix.Messages.Fix44.Parsed.{Taken, reading, loop-encode, loop-ends, body-Taken}

-- The texts of an envelope that a message can carry, and the sequence numbers.
pub record IsSendable (e : Envelope) : Type 0 where
  pub begin_string : IsPlain e.begin_string
  pub begins : is_empty e.begin_string ≡ false
  pub sender_comp_id : IsPlain e.sender_comp_id
  pub sends : is_empty e.sender_comp_id ≡ false
  pub target_comp_id : IsPlain e.target_comp_id
  pub targets : is_empty e.target_comp_id ≡ false
  pub sending_time : IsPlain e.sending_time
  pub numbered : 0 < e.msg_seq_num
  pub counted : e.msg_seq_num < 2 ^ 32

length-encode :
    (tag : ℕ) (value r : Bytes) → 2 + length value + length r ≤ length (encode tag value ++ r)
length-encode tag value r = omega (
  arith,
  length-append (encode tag value) r,
  length-append (to_digits tag) (equals ∷ (value ++ soh ∷ [])),
  length-append value (soh ∷ []),
)

module _ (e : Envelope) (type l : ℕ) (v : IsSendable e) where
  abbrev state : ℕ → MessageHeader → List ℕ → HeaderState
  state n h bits = record { header = h; body_start = 0; fields_parsed = n; seen = bits }

  abbrev h1 : MessageHeader
  h1 = record empty_header { begin_string = e.begin_string }

  abbrev h2 : MessageHeader
  h2 = record h1 { body_length = pos l }

  abbrev h3 : MessageHeader
  h3 = record h2 { msg_type = type }

  abbrev h4 : MessageHeader
  h4 = record h3 { sender_comp_id = e.sender_comp_id }

  abbrev h5 : MessageHeader
  h5 = record h4 { target_comp_id = e.target_comp_id }

  abbrev h6 : MessageHeader
  h6 = record h5 { msg_seq_num = e.msg_seq_num }

  abbrev pub h7 : MessageHeader
  h7 = record h6 { sending_time = e.sending_time }

  abbrev read_header : HeaderState
  read_header = state 7 h7 (6 ∷ 5 ∷ 4 ∷ 3 ∷ 2 ∷ 1 ∷ 0 ∷ [])

  -- The fields of the header, and `rest` behind them.
  abbrev pub fields_before : Bytes → Bytes
  fields_before rest =
      encode 8 e.begin_string
      ++ (encode 9 (six_digits l)
          ++ (encode 35 (type ∷ [])
              ++ (encode 49 e.sender_comp_id
                  ++ (encode 56 e.target_comp_id
                      ++ (encode 34 (to_digits e.msg_seq_num)
                          ++ (encode 52 e.sending_time ++ rest))))))

  text_Taken :
      (s t : HeaderState) (tag : ℕ) (value : Bytes) (at : ℕ)
      → leb tag max_int ≡ true
      → (tag == 0) ≡ false
      → IsPlain value
      → (marked : HeaderState) → mark_seen s tag ≡ ok marked
      → take_field marked (record { tag = tag; value = value }) at ≡ ok t
      → Taken s t tag value at
  text_Taken s t tag value at fits used plain marked marks takes = record {
    fits = ground arith;
    used = used;
    plain = plain;
    marked = marked;
    marks = marks;
    takes = takes;
  }

  length_Taken :
      (at : ℕ)
      → l < 1_000_000
      → Taken (state 1 h1 (0 ∷ [])) (state 2 h2 (1 ∷ 0 ∷ [])) 9 (six_digits l) at
  unfolding header_bit has_bit mark_seen take_field
  length_Taken at h =
      let small : (l % 2 ^ 32) ≡ l = omega arith in
      text_Taken _ _ 9 (six_digits l) at refl refl (plain-six_digits l) (state 1 h1 (1 ∷ 0 ∷ []))
        refl (rw (as_int-six_digits l h, take_field) (ground arith))

  number_Taken :
      (at : ℕ)
      → Taken
          (state 5 h5 (4 ∷ 3 ∷ 2 ∷ 1 ∷ 0 ∷ []))
          (state 6 h6 (5 ∷ 4 ∷ 3 ∷ 2 ∷ 1 ∷ 0 ∷ []))
          34
          (to_digits e.msg_seq_num)
          at
  unfolding header_bit has_bit mark_seen take_field
  number_Taken at =
      let counted = v.counted in
      let small : e.msg_seq_num % 2 ^ 32 ≡ e.msg_seq_num = omega arith in
      text_Taken _ _ 34 (to_digits e.msg_seq_num) at refl refl (plain-to_digits e.msg_seq_num)
        (state 5 h5 (5 ∷ 4 ∷ 3 ∷ 2 ∷ 1 ∷ 0 ∷ [])) refl
        (rw (as_uint-to_digits e.msg_seq_num (omega arith), take_field) (rw small refl))

  headed :
      (fuel n : ℕ) (rest : Bytes)
      → IsPlain (type ∷ [])
      → l < 1_000_000
      → header_loop
          (suc (suc (suc (suc (suc (suc (suc fuel)))))))
          start_state
          (reading n (fields_before rest))
        ≡ header_loop fuel read_header (reading n rest)
  unfolding header_bit has_bit mark_seen take_field as_char
  headed fuel n rest typed fits =
      loop-encode _ start_state (state 1 h1 (0 ∷ [])) n 8 e.begin_string _ refl
        (text_Taken _ _ 8 e.begin_string _ refl refl v.begin_string _ refl refl)
      ∙ loop-encode _ _ (state 2 h2 (1 ∷ 0 ∷ [])) n 9 (six_digits l) _ refl (length_Taken _ fits)
      ∙ loop-encode _ _ (state 3 h3 (2 ∷ 1 ∷ 0 ∷ [])) n 35 (type ∷ []) _ refl
          (text_Taken _ _ 35 (type ∷ []) _ refl refl typed _ refl refl)
      ∙ loop-encode _ _ (state 4 h4 (3 ∷ 2 ∷ 1 ∷ 0 ∷ [])) n 49 e.sender_comp_id _ refl
          (text_Taken _ _ 49 e.sender_comp_id _ refl refl v.sender_comp_id _ refl refl)
      ∙ loop-encode _ _ (state 5 h5 (4 ∷ 3 ∷ 2 ∷ 1 ∷ 0 ∷ [])) n 56 e.target_comp_id _ refl
          (text_Taken _ _ 56 e.target_comp_id _ refl refl v.target_comp_id _ refl refl)
      ∙ loop-encode _ _ (state 6 h6 (5 ∷ 4 ∷ 3 ∷ 2 ∷ 1 ∷ 0 ∷ [])) n 34 (to_digits e.msg_seq_num) _
          refl (number_Taken _)
      ∙ loop-encode _ _ read_header n 52 e.sending_time _ refl
          (text_Taken _ _ 52 e.sending_time _ refl refl v.sending_time _ refl refl)

  length-fields_before : (rest : Bytes) → 20 + length rest ≤ length (fields_before rest)
  length-fields_before rest =
      let from_time = encode 52 e.sending_time ++ rest in
      let from_number = encode 34 (to_digits e.msg_seq_num) ++ from_time in
      let from_target = encode 56 e.target_comp_id ++ from_number in
      let from_sender = encode 49 e.sender_comp_id ++ from_target in
      let from_type = encode 35 (type ∷ []) ++ from_sender in
      let from_length = encode 9 (six_digits l) ++ from_type in
      omega (
        arith,
        length-encode 52 e.sending_time rest,
        length-encode 34 (to_digits e.msg_seq_num) from_time,
        length-encode 56 e.target_comp_id from_number,
        length-encode 49 e.sender_comp_id from_target,
        length-encode 35 (type ∷ []) from_sender,
        length-encode 9 (six_digits l) from_type,
        length-encode 8 e.begin_string from_length,
      )

  -- The header, when a field that is no header field stands behind it.
  pub parse_header-fields :
      (tag : ℕ) (value r : Bytes)
      → IsPlain (type ∷ [])
      → (type == 0) ≡ false
      → l < 1_000_000
      → 0 < l
      → header_bit tag ≡ none
      → tag ≤ max_int
      → (tag == 0) ≡ false
      → IsPlain value
      → (body_start : ℕ) × (parse_header (fields_before (encode tag value ++ r))
          ≡ ok (h7, body_start))
  unfolding parse_header check_required
  parse_header-fields tag value r typed some_type fits filled bit small used plain =
      let rest = encode tag value ++ r in
      let bytes = fields_before rest in
      let n = length bytes in
      let start = n - length r - length value - 2 in
      let s = record read_header { body_start = start } in
      let enough = length-fields_before rest in
      let behind = length-encode tag value r in
      let long : ltb n 20 ≡ false = ground arith in
      let found : (start == 0) ≡ false = ground arith in
      let ended : (has_next (reading n r) && ltb 7 10 && start == 0) ≡ false = ground arith in
      let numbered = v.numbered in
      let counted : (e.msg_seq_num == 0) ≡ false = ground arith in
      let some_length : (l == 0) ≡ false = ground arith in
      let rounds : suc n ≡ suc (suc (suc (suc (suc (suc (suc (suc (n - 7)))))))) = omega arith in
      let loop : header_loop (suc n) start_state (reading n bytes) ≡ ok (s, reading n r) =
        ap (λ fuel. header_loop fuel start_state (reading n bytes)) rounds
        ∙ headed (suc (n - 7)) n rest typed fits
        ∙ loop-encode (n - 7) read_header s n tag value r refl
            (body-Taken read_header tag value (n - length r) bit small used plain)
        ∙ loop-ends (n - 7) s (reading n r) ended in
      (
        start,
        rw (long, parse_header)
            (rw loop (
              rw v.begins (
                rw some_length
                  (rw some_type (rw v.sends (rw v.targets (rw counted (rw found refl)))))))),
      )
