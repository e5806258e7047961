-- ===== src/Sbe/ExecutionReport/Setters.antt =====
-- The setters of include/nexusfix/sbe/codecs/execution_report.hpp, one call at a time.
use nexus_fix.Base.{
  ℕ, ◌≤◌, ◌≡◌, refl, ap, ◌∙◌, Bool, false, ◌||◌, List, [], ◌∷◌, Bytes, ltb, length, take, arith,
}
use nexus_fix.Base.Words.{ℤ, pos}
use nexus_fix.Sbe.Bytes.{read_le, read_int64, write_int64}
use nexus_fix.Sbe.Layout.{slices-overwrite, length-overwrite, IsInt64, read_int64-write_int64}
use nexus_fix.Sbe.Fields.{decode_string, decode_char, encode_string, encode_char}
use nexus_fix.Sbe.Fields.Strings.{written_string, trimmed, length-encode_string}
use nexus_fix.Sbe.Header.{block_length, template_id}
use nexus_fix.Sbe.ExecutionReport.{
  Codec, total_size, order_id, exec_id, cl_ord_id, symbol, side, exec_type, ord_status, price,
  order_qty, last_px, last_qty, leaves_qty, cum_qty, avg_px, transact_time, set_order_id,
  set_exec_id, set_cl_ord_id, set_symbol, set_side, set_exec_type, set_ord_status, set_price,
  set_order_qty, set_last_px, set_last_qty, set_leaves_qty, set_cum_qty, set_avg_px,
  set_transact_time,
}

-- A report, as its receiver reads it.
pub record Report : Type 0 where
  pub order_id : Bytes
  pub exec_id : Bytes
  pub cl_ord_id : Bytes
  pub symbol : Bytes
  pub side : ℕ
  pub exec_type : ℕ
  pub ord_status : ℕ
  pub price : ℤ
  pub order_qty : ℤ
  pub last_px : ℤ
  pub last_qty : ℤ
  pub leaves_qty : ℤ
  pub cum_qty : ℤ
  pub avg_px : ℤ
  pub transact_time : ℤ

-- The template and the block length of the header, and the fields of the body.
abbrev pub read : Bytes → ℕ × ℕ × Report
read buffer = (
  template_id buffer,
  block_length buffer,
  record {
    order_id = order_id buffer;
    exec_id = exec_id buffer;
    cl_ord_id = cl_ord_id buffer;
    symbol = symbol buffer;
    side = side buffer;
    exec_type = exec_type buffer;
    ord_status = ord_status buffer;
    price = (price buffer).raw;
    order_qty = (order_qty buffer).raw;
    last_px = (last_px buffer).raw;
    last_qty = (last_qty buffer).raw;
    leaves_qty = (leaves_qty buffer).raw;
    cum_qty = (cum_qty buffer).raw;
    avg_px = (avg_px buffer).raw;
    transact_time = (transact_time buffer).nanos;
  },
)

-- A call of a setter.
pub data Setter : Type 0 where
  put_order_id put_exec_id put_cl_ord_id put_symbol : Bytes → Setter
  put_side put_exec_type put_ord_status : ℕ → Setter
  put_price put_order_qty put_last_px put_last_qty put_leaves_qty put_cum_qty put_avg_px
        put_transact_time :
      ℤ → Setter

abbrev pub call : Setter → Codec → Codec
call (Setter.put_order_id v) c = set_order_id v c
call (Setter.put_exec_id v) c = set_exec_id v c
call (Setter.put_cl_ord_id v) c = set_cl_ord_id v c
call (Setter.put_symbol v) c = set_symbol v c
call (Setter.put_side v) c = set_side v c
call (Setter.put_exec_type v) c = set_exec_type v c
call (Setter.put_ord_status v) c = set_ord_status v c
call (Setter.put_price v) c = set_price (record { raw = v }) c
call (Setter.put_order_qty v) c = set_order_qty (record { raw = v }) c
call (Setter.put_last_px v) c = set_last_px (record { raw = v }) c
call (Setter.put_last_qty v) c = set_last_qty (record { raw = v }) c
call (Setter.put_leaves_qty v) c = set_leaves_qty (record { raw = v }) c
call (Setter.put_cum_qty v) c = set_cum_qty (record { raw = v }) c
call (Setter.put_avg_px v) c = set_avg_px (record { raw = v }) c
call (Setter.put_transact_time v) c = set_transact_time (record { nanos = v }) c

-- What the call means for the report: a text is cut off at the size of its field, and loses the spaces
-- at its end.
abbrev pub update : Setter → Report → Report
update (Setter.put_order_id v) o = record o { order_id = trimmed (take 20 v) }
update (Setter.put_exec_id v) o = record o { exec_id = trimmed (take 20 v) }
update (Setter.put_cl_ord_id v) o = record o { cl_ord_id = trimmed (take 20 v) }
update (Setter.put_symbol v) o = record o { symbol = trimmed (take 8 v) }
update (Setter.put_side v) o = record o { side = v }
update (Setter.put_exec_type v) o = record o { exec_type = v }
update (Setter.put_ord_status v) o = record o { ord_status = v }
update (Setter.put_price v) o = record o { price = v }
update (Setter.put_order_qty v) o = record o { order_qty = v }
update (Setter.put_last_px v) o = record o { last_px = v }
update (Setter.put_last_qty v) o = record o { last_qty = v }
update (Setter.put_leaves_qty v) o = record o { leaves_qty = v }
update (Setter.put_cum_qty v) o = record o { cum_qty = v }
update (Setter.put_avg_px v) o = record o { avg_px = v }
update (Setter.put_transact_time v) o = record o { transact_time = v }

-- The numbers of a call fit an `int64_t`.
abbrev pub Fits : Setter → Type 0
Fits (Setter.put_price v) = IsInt64 v
Fits (Setter.put_order_qty v) = IsInt64 v
Fits (Setter.put_last_px v) = IsInt64 v
Fits (Setter.put_last_qty v) = IsInt64 v
Fits (Setter.put_leaves_qty v) = IsInt64 v
Fits (Setter.put_cum_qty v) = IsInt64 v
Fits (Setter.put_avg_px v) = IsInt64 v
Fits (Setter.put_transact_time v) = IsInt64 v
Fits _ = Unit {0}

-- Whether a text of the call is cut off.
abbrev pub cuts : Setter → Bool
cuts (Setter.put_order_id v) = ltb 20 (length v)
cuts (Setter.put_exec_id v) = ltb 20 (length v)
cuts (Setter.put_cl_ord_id v) = ltb 20 (length v)
cuts (Setter.put_symbol v) = ltb 8 (length v)
cuts _ = false

-- The fields as slices of the buffer, those of the header in front.
abbrev pub layout : List (ℕ × ℕ)
layout =
    (2, 2)
    ∷ (0, 2)
    ∷ (8, 20)
    ∷ (28, 20)
    ∷ (48, 20)
    ∷ (68, 8)
    ∷ (76, 1)
    ∷ (77, 1)
    ∷ (78, 1)
    ∷ (80, 8)
    ∷ (88, 8)
    ∷ (96, 8)
    ∷ (104, 8)
    ∷ (112, 8)
    ∷ (120, 8)
    ∷ (128, 8)
    ∷ (136, 8)
    ∷ []

abbrev pub interpret : List Bytes → ℕ × ℕ × Report
interpret
      (a ∷ b ∷ s0 ∷ s1 ∷ s2 ∷ s3 ∷ s4 ∷ s5 ∷ s6 ∷ s7 ∷ s8 ∷ s9 ∷ s10 ∷ s11 ∷ s12 ∷ s13 ∷ s14 ∷ _) =
    (
      read_le a,
      read_le b,
      record {
        order_id = decode_string 20 s0;
        exec_id = decode_string 20 s1;
        cl_ord_id = decode_string 20 s2;
        symbol = decode_string 8 s3;
        side = decode_char s4;
        exec_type = decode_char s5;
        ord_status = decode_char s6;
        price = read_int64 s7;
        order_qty = read_int64 s8;
        last_px = read_int64 s9;
        last_qty = read_int64 s10;
        leaves_qty = read_int64 s11;
        cum_qty = read_int64 s12;
        avg_px = read_int64 s13;
        transact_time = read_int64 s14;
      },
    )
interpret _ = (
  0,
  0,
  record {
    order_id = [];
    exec_id = [];
    cl_ord_id = [];
    symbol = [];
    side = 0;
    exec_type = 0;
    ord_status = 0;
    price = pos 0;
    order_qty = pos 0;
    last_px = pos 0;
    last_qty = pos 0;
    leaves_qty = pos 0;
    cum_qty = pos 0;
    avg_px = pos 0;
    transact_time = pos 0;
  },
)

-- A setter changes its field and no other.
pub call-read :
    (w : Setter) (c : Codec)
    → Fits w
    → total_size ≤ length c.buffer
    → let (t, b, o) = read c.buffer in read (call w c).buffer ≡ (t, b, update w o)
unfolding set_order_id set_exec_id set_cl_ord_id set_symbol set_side set_exec_type set_ord_status
    set_price set_order_qty set_last_px set_last_qty set_leaves_qty set_cum_qty set_avg_px
    set_transact_time
call-read (Setter.put_order_id v) c f h =
    let (t, b, o) = read c.buffer in
    let bytes = (encode_string 20 v).1 in
    ap interpret
      (slices-overwrite layout 8 20 bytes c.buffer (length-encode_string 20 v) (omega arith) refl)
    ∙ ap (λ (x : Bytes). (t, b, record o { order_id = x })) (written_string 20 v)
call-read (Setter.put_exec_id v) c f h =
    let (t, b, o) = read c.buffer in
    let bytes = (encode_string 20 v).1 in
    ap interpret
      (slices-overwrite layout 28 20 bytes c.buffer (length-encode_string 20 v) (omega arith) refl)
    ∙ ap (λ (x : Bytes). (t, b, record o { exec_id = x })) (written_string 20 v)
call-read (Setter.put_cl_ord_id v) c f h =
    let (t, b, o) = read c.buffer in
    let bytes = (encode_string 20 v).1 in
    ap interpret
      (slices-overwrite layout 48 20 bytes c.buffer (length-encode_string 20 v) (omega arith) refl)
    ∙ ap (λ (x : Bytes). (t, b, record o { cl_ord_id = x })) (written_string 20 v)
call-read (Setter.put_symbol v) c f h =
    let (t, b, o) = read c.buffer in
    let bytes = (encode_string 8 v).1 in
    ap interpret
      (slices-overwrite layout 68 8 bytes c.buffer (length-encode_string 8 v) (omega arith) refl)
    ∙ ap (λ (x : Bytes). (t, b, record o { symbol = x })) (written_string 8 v)
call-read (Setter.put_side v) c f h =
    ap interpret (slices-overwrite layout 76 1 (encode_char v) c.buffer refl (omega arith) refl)
call-read (Setter.put_exec_type v) c f h =
    ap interpret (slices-overwrite layout 77 1 (encode_char v) c.buffer refl (omega arith) refl)
call-read (Setter.put_ord_status v) c f h =
    ap interpret (slices-overwrite layout 78 1 (encode_char v) c.buffer refl (omega arith) refl)
call-read (Setter.put_price v) c f h =
    let (t, b, o) = read c.buffer in
    ap interpret (slices-overwrite layout 80 8 (write_int64 v) c.buffer refl (omega arith) refl)
    ∙ ap (λ (x : ℤ). (t, b, record o { price = x })) (read_int64-write_int64 v f)
call-read (Setter.put_order_qty v) c f h =
    let (t, b, o) = read c.buffer in
    ap interpret (slices-overwrite layout 88 8 (write_int64 v) c.buffer refl (omega arith) refl)
    ∙ ap (λ (x : ℤ). (t, b, record o { order_qty = x })) (read_int64-write_int64 v f)
call-read (Setter.put_last_px v) c f h =
    let (t, b, o) = read c.buffer in
    ap interpret (slices-overwrite layout 96 8 (write_int64 v) c.buffer refl (omega arith) refl)
    ∙ ap (λ (x : ℤ). (t, b, record o { last_px = x })) (read_int64-write_int64 v f)
call-read (Setter.put_last_qty v) c f h =
    let (t, b, o) = read c.buffer in
    ap interpret (slices-overwrite layout 104 8 (write_int64 v) c.buffer refl (omega arith) refl)
    ∙ ap (λ (x : ℤ). (t, b, record o { last_qty = x })) (read_int64-write_int64 v f)
call-read (Setter.put_leaves_qty v) c f h =
    let (t, b, o) = read c.buffer in
    ap interpret (slices-overwrite layout 112 8 (write_int64 v) c.buffer refl (omega arith) refl)
    ∙ ap (λ (x : ℤ). (t, b, record o { leaves_qty = x })) (read_int64-write_int64 v f)
call-read (Setter.put_cum_qty v) c f h =
    let (t, b, o) = read c.buffer in
    ap interpret (slices-overwrite layout 120 8 (write_int64 v) c.buffer refl (omega arith) refl)
    ∙ ap (λ (x : ℤ). (t, b, record o { cum_qty = x })) (read_int64-write_int64 v f)
call-read (Setter.put_avg_px v) c f h =
    let (t, b, o) = read c.buffer in
    ap interpret (slices-overwrite layout 128 8 (write_int64 v) c.buffer refl (omega arith) refl)
    ∙ ap (λ (x : ℤ). (t, b, record o { avg_px = x })) (read_int64-write_int64 v f)
call-read (Setter.put_transact_time v) c f h =
    let (t, b, o) = read c.buffer in
    ap interpret (slices-overwrite layout 136 8 (write_int64 v) c.buffer refl (omega arith) refl)
    ∙ ap (λ (x : ℤ). (t, b, record o { transact_time = x })) (read_int64-write_int64 v f)

pub call-length : (w : Setter) (c : Codec) → length (call w c).buffer ≡ length c.buffer
unfolding set_order_id set_exec_id set_cl_ord_id set_symbol set_side set_exec_type set_ord_status
    set_price set_order_qty set_last_px set_last_qty set_leaves_qty set_cum_qty set_avg_px
    set_transact_time
call-length (Setter.put_order_id v) c = length-overwrite 8 (encode_string 20 v).1 c.buffer
call-length (Setter.put_exec_id v) c = length-overwrite 28 (encode_string 20 v).1 c.buffer
call-length (Setter.put_cl_ord_id v) c = length-overwrite 48 (encode_string 20 v).1 c.buffer
call-length (Setter.put_symbol v) c = length-overwrite 68 (encode_string 8 v).1 c.buffer
call-length (Setter.put_side v) c = length-overwrite 76 (encode_char v) c.buffer
call-length (Setter.put_exec_type v) c = length-overwrite 77 (encode_char v) c.buffer
call-length (Setter.put_ord_status v) c = length-overwrite 78 (encode_char v) c.buffer
call-length (Setter.put_price v) c = length-overwrite 80 (write_int64 v) c.buffer
call-length (Setter.put_order_qty v) c = length-overwrite 88 (write_int64 v) c.buffer
call-length (Setter.put_last_px v) c = length-overwrite 96 (write_int64 v) c.buffer
call-length (Setter.put_last_qty v) c = length-overwrite 104 (write_int64 v) c.buffer
call-length (Setter.put_leaves_qty v) c = length-overwrite 112 (write_int64 v) c.buffer
call-length (Setter.put_cum_qty v) c = length-overwrite 120 (write_int64 v) c.buffer
call-length (Setter.put_avg_px v) c = length-overwrite 128 (write_int64 v) c.buffer
call-length (Setter.put_transact_time v) c = length-overwrite 136 (write_int64 v) c.buffer

pub call-truncated : (w : Setter) (c : Codec) → (call w c).truncated ≡ (c.truncated || cuts w)
unfolding set_order_id set_exec_id set_cl_ord_id set_symbol set_side set_exec_type set_ord_status
    set_price set_order_qty set_last_px set_last_qty set_leaves_qty set_cum_qty set_avg_px
    set_transact_time
call-truncated (Setter.put_order_id v) c = ground arith
call-truncated (Setter.put_exec_id v) c = ground arith
call-truncated (Setter.put_cl_ord_id v) c = ground arith
call-truncated (Setter.put_symbol v) c = ground arith
call-truncated (Setter.put_side v) c = ground arith
call-truncated (Setter.put_exec_type v) c = ground arith
call-truncated (Setter.put_ord_status v) c = ground arith
call-truncated (Setter.put_price v) c = ground arith
call-truncated (Setter.put_order_qty v) c = ground arith
call-truncated (Setter.put_last_px v) c = ground arith
call-truncated (Setter.put_last_qty v) c = ground arith
call-truncated (Setter.put_leaves_qty v) c = ground arith
call-truncated (Setter.put_cum_qty v) c = ground arith
call-truncated (Setter.put_avg_px v) c = ground arith
call-truncated (Setter.put_transact_time v) c = ground arith
