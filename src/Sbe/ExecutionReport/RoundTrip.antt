-- ===== src/Sbe/ExecutionReport/RoundTrip.antt =====
-- Every field reads back what was last written to it, in whatever order the setters are called.
use nexus_fix.Base.{
  ℕ, ◌≤◌, ◌≡◌, refl, ap, ◌∙◌, Bool, true, false, ◌||◌, List, [], ◌∷◌, some, Bytes, length,
  replicate, arith,
}
use nexus_fix.Base.Words.{pos}
use nexus_fix.Sbe.Layout.{slices-overwrite, length-overwrite}
use nexus_fix.Sbe.Fields.{trim_from}
use nexus_fix.Sbe.Header.{write_header}
use mathlib.Core.Path.{ap₂}
use nexus_fix.Sbe.Dispatch.{Handled, dispatch}
use nexus_fix.Sbe.Dispatch.Chosen.{dispatch-by_template}
use nexus_fix.Sbe.Header.Written.{written, length-write_header, is_message-true}
use nexus_fix.Sbe.ExecutionReport.{
  Codec, total_size, block_size, template, wrap_for_encode, is_valid, encode_header,
}
use nexus_fix.Sbe.ExecutionReport.Setters.{
  Report, Setter, read, call, update, Fits, cuts, layout, interpret, call-read, call-length,
  call-truncated,
}

-- Chains of calls.
abbrev pub calls : List Setter → Codec → Codec
calls [] c = c
calls (w ∷ ws) c = calls ws (call w c)

abbrev pub updates : List Setter → Report → Report
updates [] o = o
updates (w ∷ ws) o = updates ws (update w o)

abbrev pub AllFit : List Setter → Type 0
AllFit [] = Unit {0}
AllFit (w ∷ ws) = Fits w × AllFit ws

abbrev pub any_cuts : List Setter → Bool
any_cuts [] = false
any_cuts (w ∷ ws) = cuts w || any_cuts ws

-- What a codec shows of its buffer.
record Shows (c : Codec) (o : Report) (cut : Bool) : Type 0 where
  room : total_size ≤ length c.buffer
  reads : read c.buffer ≡ (8, 136, o)
  flag : c.truncated ≡ cut

calls-Shows :
    (ws : List Setter) (c : Codec) (o : Report) (cut : Bool)
    → AllFit ws
    → Shows c o cut
    → Shows (calls ws c) (updates ws o) (cut || any_cuts ws)
calls-Shows [] c o cut f s = record { room = s.room; reads = s.reads; flag = s.flag ∙ ground arith }
calls-Shows (w ∷ ws) c o cut (fw, f) s =
    let stays = call-length w c in
    let step : Shows (call w c) (update w o) (cut || cuts w) = record {
      room = omega (arith, s.room);
      reads =
          call-read w c fw s.room ∙ ap (λ (r : ℕ × ℕ × Report). (r.0, r.1, update w r.2)) s.reads;
      flag = call-truncated w c ∙ ap (λ t. t || cuts w) s.flag;
    } in
    let rest = calls-Shows ws (call w c) (update w o) (cut || cuts w) f step in
    record { room = rest.room; reads = rest.reads; flag = rest.flag ∙ ground arith }

-- The report of a message that only its header was written of.
abbrev pub blank_report : Report
blank_report = record {
  order_id = replicate 20 0;
  exec_id = replicate 20 0;
  cl_ord_id = replicate 20 0;
  symbol = replicate 8 0;
  side = 0;
  exec_type = 0;
  ord_status = 0;
  price = pos 0;
  order_qty = pos 0;
  last_px = pos 0;
  last_qty = pos 0;
  leaves_qty = pos 0;
  cum_qty = pos 0;
  avg_px = pos 0;
  transact_time = pos 0;
}

encode_header-Shows :
    (buffer : Bytes)
    → total_size ≤ length buffer
    → Shows (encode_header (wrap_for_encode buffer)) blank_report false
unfolding encode_header trim_from
encode_header-Shows buffer h =
    let headed = write_header block_size template buffer in
    let same = length-write_header block_size template buffer in
    let (t, b, _, _) =
      written block_size template buffer (omega arith) (omega arith) (omega arith) in
    record {
      room = omega (arith, length-overwrite 8 (replicate 136 0) headed, same);
      reads =
          ap interpret
            (slices-overwrite layout 8 136 (replicate 136 0) headed refl (omega arith) refl)
          ∙ ap₂ (λ (t b : ℕ). (t, b, blank_report)) t b;
      flag = refl;
    }

-- The same of execution reports: on any buffer with room for the message, once the header is
-- written and whatever setters are called after it with numbers that fit an `int64_t`, the
-- message is valid and is handed to the codec of reports; each field reads as it was last set,
-- a text cut off at the size of its field and without the spaces at its end, and a field that
-- was not set as zero bytes; and the codec reports whether a text was cut off.
pub encoded_report :
    (buffer : Bytes) (ws : List Setter)
    → total_size ≤ length buffer
    → AllFit ws
    → let c = calls ws (encode_header (wrap_for_encode buffer)) in
      (is_valid (some c.buffer) ≡ true)
      × (read c.buffer ≡ (8, 136, updates ws blank_report))
      × (c.truncated ≡ any_cuts ws)
      × (dispatch (some c.buffer) ≡ Handled.execution_report c.buffer)
encoded_report buffer ws h f =
    let start = encode_header (wrap_for_encode buffer) in
    let s = calls-Shows ws start blank_report false f (encode_header-Shows buffer h) in
    let t = ap (λ (r : ℕ × ℕ × Report). r.0) s.reads in
    let b = ap (λ (r : ℕ × ℕ × Report). r.1) s.reads in
    let buffer' = (calls ws start).buffer in
    (
      is_message-true template block_size buffer' s.room t b,
      s.reads,
      s.flag,
      dispatch-by_template buffer' template (omega (arith, s.room)) t,
    )
