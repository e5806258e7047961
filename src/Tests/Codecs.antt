-- ===== src/Tests/Codecs.antt =====
-- The codecs of include/nexusfix/sbe and the numbers of include/nexusfix/types at work.
use nexus_fix.Base.{◌≤◌, ◌≡◌, refl, true, false, List, [], ◌∷◌, some, codes, replicate, arith}
use nexus_fix.Base.Words.{pos, negsuc, abs, negate, max_i64}
use nexus_fix.Types.Fixed.{
  from_string, price_from_string, scan, scan_round, digit_round, scan_result,
}
use nexus_fix.Types.Fixed.Bounds.{from_string-le}
use nexus_fix.Types.Fixed.Decimal.{scaled, value_onto, from_string-number_text}
use nexus_fix.Sbe.Bytes.{overwrite}
use nexus_fix.Sbe.Header.{write_header}
use nexus_fix.Sbe.Fields.{trim_from}
use nexus_fix.Sbe.NewOrderSingle
use nexus_fix.Sbe.NewOrderSingle.Setters
use nexus_fix.Sbe.NewOrderSingle.RoundTrip.{encoded_order, blank_order, calls, updates}
use nexus_fix.Sbe.ExecutionReport
use nexus_fix.Sbe.ExecutionReport.Setters as ReportSetters
use nexus_fix.Sbe.ExecutionReport.RoundTrip as ReportRoundTrip
use nexus_fix.Sbe.ExecutionReport.RoundTrip.{encoded_report}
use nexus_fix.Sbe.Dispatch.{Handled, dispatch}

abbrev order_calls : List Setters.Setter
order_calls =
    Setters.Setter.put_symbol (codes "AAPL")
    ∷ Setters.Setter.put_price (pos 15_050_000_000)
    ∷ Setters.Setter.put_side b'1'
    ∷ Setters.Setter.put_cl_ord_id (codes "ORDER 1")
    ∷ Setters.Setter.put_transact_time (negsuc 0)
    ∷ Setters.Setter.put_symbol (codes "TOO LONG A NAME")
    ∷ []

abbrev order_codec : NewOrderSingle.Codec
order_codec =
    calls order_calls
      (NewOrderSingle.encode_header (NewOrderSingle.wrap_for_encode (replicate 64 255)))

encoded_order_example :
    (NewOrderSingle.is_valid (some order_codec.buffer) ≡ true)
    × (Setters.read order_codec.buffer ≡ (1, 56, updates order_calls blank_order))
    × (order_codec.truncated ≡ true)
    × (dispatch (some order_codec.buffer) ≡ Handled.new_order_single order_codec.buffer)
encoded_order_example =
    encoded_order (replicate 64 255) order_calls (omega arith)
      (tt, (omega arith, (tt, (tt, (omega arith, (tt, tt))))))

-- The later symbol is cut off and replaces the first one.
order_read : Setters.read order_codec.buffer ≡ (
  1,
  56,
  record {
    cl_ord_id = codes "ORDER 1";
    symbol = codes "TOO LONG";
    side = b'1';
    ord_type = 0;
    price = pos 15_050_000_000;
    order_qty = pos 0;
    transact_time = negsuc 0;
  },
)
unfolding NewOrderSingle.set_cl_ord_id NewOrderSingle.set_symbol NewOrderSingle.set_side
    NewOrderSingle.set_price NewOrderSingle.set_transact_time NewOrderSingle.encode_header overwrite
    write_header trim_from
order_read = refl

abbrev report_calls : List ReportSetters.Setter
report_calls =
    ReportSetters.Setter.put_exec_id (codes "E7")
    ∷ ReportSetters.Setter.put_avg_px (negsuc 4)
    ∷ ReportSetters.Setter.put_ord_status b'2'
    ∷ []

abbrev report_codec : ExecutionReport.Codec
report_codec =
    ReportRoundTrip.calls report_calls
      (ExecutionReport.encode_header (ExecutionReport.wrap_for_encode (replicate 150 7)))

encoded_report_example :
    (ExecutionReport.is_valid (some report_codec.buffer) ≡ true)
    × (ReportSetters.read report_codec.buffer
        ≡ (8, 136, ReportRoundTrip.updates report_calls ReportRoundTrip.blank_report))
    × (report_codec.truncated ≡ false)
    × (dispatch (some report_codec.buffer) ≡ Handled.execution_report report_codec.buffer)
encoded_report_example =
    encoded_report (replicate 150 7) report_calls (omega arith) (tt, (omega arith, (tt, tt)))

from_string-le_example : abs (from_string 8 (codes "-99999999999999999999.5")) ≤ max_i64
from_string-le_example =
    from_string-le 8 (codes "-99999999999999999999.5") (omega arith) (omega arith)

-- The loop stops before the digit that does not fit.
cut_number :
    price_from_string (codes "99999999999999.5") ≡ record { raw = pos 999_999_999_900_000_000 }
unfolding from_string scan scan_round digit_round scan_result
cut_number = refl

from_string-number_text_example :
    from_string 4 (codes "-12.34567") ≡ negate (scaled 4 (codes "12") (codes "34567"))
from_string-number_text_example =
    from_string-number_text 4 true (codes "12") (some (codes "34567"))
      (omega arith, (omega arith, tt))
      (omega arith, (omega arith, (omega arith, (omega arith, (omega arith, tt)))))
      (unfold value_onto in omega arith)

scaled_number : scaled 4 (codes "12") (codes "34567") ≡ 123_456
unfolding value_onto
scaled_number = refl
