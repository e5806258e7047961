-- ===== src/Sbe/NewOrderSingle/Setters.antt =====
-- The setters of include/nexusfix/sbe/codecs/new_order_single.hpp, one call at a time.
use nexus_fix.Base.{
  ℕ, ◌≤◌, ◌≡◌, refl, ap, ◌∙◌, Bool, false, ◌||◌, List, [], ◌∷◌, Bytes, ltb, length, take, arith,
}
use nexus_fix.Base.Words.{ℤ, pos}
use nexus_fix.Sbe.Bytes.{read_le, read_int64, write_int64}
use nexus_fix.Sbe.Layout.{slices-overwrite, length-overwrite, IsInt64, read_int64-write_int64}
use nexus_fix.Sbe.Fields.{decode_string, decode_char, encode_string, encode_char}
use nexus_fix.Sbe.Fields.Strings.{written_string, trimmed, length-encode_string}
use nexus_fix.Sbe.Header.{block_length, template_id}
use nexus_fix.Sbe.NewOrderSingle.{
  Codec, total_size, cl_ord_id, symbol, side, ord_type, price, order_qty, transact_time,
  set_cl_ord_id, set_symbol, set_side, set_ord_type, set_price, set_order_qty, set_transact_time,
}

-- An order, as its receiver reads it.
pub record Order : Type 0 where
  pub cl_ord_id : Bytes
  pub symbol : Bytes
  pub side : ℕ
  pub ord_type : ℕ
  pub price : ℤ
  pub order_qty : ℤ
  pub transact_time : ℤ

-- The template and the block length of the header, and the fields of the body.
abbrev pub read : Bytes → ℕ × ℕ × Order
read buffer = (
  template_id buffer,
  block_length buffer,
  record {
    cl_ord_id = cl_ord_id buffer;
    symbol = symbol buffer;
    side = side buffer;
    ord_type = ord_type buffer;
    price = (price buffer).raw;
    order_qty = (order_qty buffer).raw;
    transact_time = (transact_time buffer).nanos;
  },
)

-- A call of a setter.
pub data Setter : Type 0 where
  put_cl_ord_id put_symbol : Bytes → Setter
  put_side put_ord_type : ℕ → Setter
  put_price put_order_qty put_transact_time : ℤ → Setter

abbrev pub call : Setter → Codec → Codec
call (Setter.put_cl_ord_id v) c = set_cl_ord_id v c
call (Setter.put_symbol v) c = set_symbol v c
call (Setter.put_side v) c = set_side v c
call (Setter.put_ord_type v) c = set_ord_type v c
call (Setter.put_price v) c = set_price (record { raw = v }) c
call (Setter.put_order_qty v) c = set_order_qty (record { raw = v }) c
call (Setter.put_transact_time v) c = set_transact_time (record { nanos = v }) c

-- What the call means for the order: a text is cut off at the size of its field, and loses the spaces
-- at its end.
abbrev pub update : Setter → Order → Order
update (Setter.put_cl_ord_id v) o = record o { cl_ord_id = trimmed (take 20 v) }
update (Setter.put_symbol v) o = record o { symbol = trimmed (take 8 v) }
update (Setter.put_side v) o = record o { side = v }
update (Setter.put_ord_type v) o = record o { ord_type = v }
update (Setter.put_price v) o = record o { price = v }
update (Setter.put_order_qty v) o = record o { order_qty = v }
update (Setter.put_transact_time v) o = record o { transact_time = v }

-- The numbers of a call fit an `int64_t`.
abbrev pub Fits : Setter → Type 0
Fits (Setter.put_price v) = IsInt64 v
Fits (Setter.put_order_qty v) = IsInt64 v
Fits (Setter.put_transact_time v) = IsInt64 v
Fits _ = Unit {0}

-- Whether a text of the call is cut off.
abbrev pub cuts : Setter → Bool
cuts (Setter.put_cl_ord_id v) = ltb 20 (length v)
cuts (Setter.put_symbol v) = ltb 8 (length v)
cuts _ = false

-- The fields as slices of the buffer, those of the header in front.
abbrev pub layout : List (ℕ × ℕ)
layout = (2, 2) ∷ (0, 2) ∷ (8, 20) ∷ (28, 8) ∷ (36, 1) ∷ (37, 1) ∷ (40, 8) ∷ (48, 8) ∷ (56, 8) ∷ []

abbrev pub interpret : List Bytes → ℕ × ℕ × Order
interpret (a ∷ b ∷ c ∷ d ∷ e ∷ f ∷ g ∷ h ∷ i ∷ _) = (
  read_le a,
  read_le b,
  record {
    cl_ord_id = decode_string 20 c;
    symbol = decode_string 8 d;
    side = decode_char e;
    ord_type = decode_char f;
    price = read_int64 g;
    order_qty = read_int64 h;
    transact_time = read_int64 i;
  },
)
interpret _ = (
  0,
  0,
  record {
    cl_ord_id = [];
    symbol = [];
    side = 0;
    ord_type = 0;
    price = pos 0;
    order_qty = pos 0;
    transact_time = pos 0;
  },
)

-- A setter changes its field and no other.
pub call-read :
    (w : Setter) (c : Codec)
    → Fits w
    → total_size ≤ length c.buffer
    → let (t, b, o) = read c.buffer in read (call w c).buffer ≡ (t, b, update w o)
unfolding set_cl_ord_id set_symbol set_side set_ord_type set_price set_order_qty set_transact_time
call-read (Setter.put_cl_ord_id v) c f h =
    let (t, b, o) = read c.buffer in
    let bytes = (encode_string 20 v).1 in
    ap interpret
      (slices-overwrite layout 8 20 bytes c.buffer (length-encode_string 20 v) (omega arith) refl)
    ∙ ap (λ (x : Bytes). (t, b, record o { cl_ord_id = x })) (written_string 20 v)
call-read (Setter.put_symbol v) c f h =
    let (t, b, o) = read c.buffer in
    let bytes = (encode_string 8 v).1 in
    ap interpret
      (slices-overwrite layout 28 8 bytes c.buffer (length-encode_string 8 v) (omega arith) refl)
    ∙ ap (λ (x : Bytes). (t, b, record o { symbol = x })) (written_string 8 v)
call-read (Setter.put_side v) c f h =
    ap interpret (slices-overwrite layout 36 1 (encode_char v) c.buffer refl (omega arith) refl)
call-read (Setter.put_ord_type v) c f h =
    ap interpret (slices-overwrite layout 37 1 (encode_char v) c.buffer refl (omega arith) refl)
call-read (Setter.put_price v) c f h =
    let (t, b, o) = read c.buffer in
    ap interpret (slices-overwrite layout 40 8 (write_int64 v) c.buffer refl (omega arith) refl)
    ∙ ap (λ (x : ℤ). (t, b, record o { price = x })) (read_int64-write_int64 v f)
call-read (Setter.put_order_qty v) c f h =
    let (t, b, o) = read c.buffer in
    ap interpret (slices-overwrite layout 48 8 (write_int64 v) c.buffer refl (omega arith) refl)
    ∙ ap (λ (x : ℤ). (t, b, record o { order_qty = x })) (read_int64-write_int64 v f)
call-read (Setter.put_transact_time v) c f h =
    let (t, b, o) = read c.buffer in
    ap interpret (slices-overwrite layout 56 8 (write_int64 v) c.buffer refl (omega arith) refl)
    ∙ ap (λ (x : ℤ). (t, b, record o { transact_time = x })) (read_int64-write_int64 v f)

pub call-length : (w : Setter) (c : Codec) → length (call w c).buffer ≡ length c.buffer
unfolding set_cl_ord_id set_symbol set_side set_ord_type set_price set_order_qty set_transact_time
call-length (Setter.put_cl_ord_id v) c = length-overwrite 8 (encode_string 20 v).1 c.buffer
call-length (Setter.put_symbol v) c = length-overwrite 28 (encode_string 8 v).1 c.buffer
call-length (Setter.put_side v) c = length-overwrite 36 (encode_char v) c.buffer
call-length (Setter.put_ord_type v) c = length-overwrite 37 (encode_char v) c.buffer
call-length (Setter.put_price v) c = length-overwrite 40 (write_int64 v) c.buffer
call-length (Setter.put_order_qty v) c = length-overwrite 48 (write_int64 v) c.buffer
call-length (Setter.put_transact_time v) c = length-overwrite 56 (write_int64 v) c.buffer

pub call-truncated : (w : Setter) (c : Codec) → (call w c).truncated ≡ (c.truncated || cuts w)
unfolding set_cl_ord_id set_symbol set_side set_ord_type set_price set_order_qty set_transact_time
call-truncated (Setter.put_cl_ord_id v) c = ground arith
call-truncated (Setter.put_symbol v) c = ground arith
call-truncated (Setter.put_side v) c = ground arith
call-truncated (Setter.put_ord_type v) c = ground arith
call-truncated (Setter.put_price v) c = ground arith
call-truncated (Setter.put_order_qty v) c = ground arith
call-truncated (Setter.put_transact_time v) c = ground arith
