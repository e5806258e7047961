-- ===== src/Sbe/ExecutionReport/Offset.antt =====
-- include/nexusfix/sbe/codecs/execution_report.hpp: the offsets of the fields behind the header.
use nexus_fix.Base.{ℕ}

abbrev pub order_id : ℕ
order_id = 0

abbrev pub exec_id : ℕ
exec_id = 20

abbrev pub cl_ord_id : ℕ
cl_ord_id = 40

abbrev pub symbol : ℕ
symbol = 60

abbrev pub side : ℕ
side = 68

abbrev pub exec_type : ℕ
exec_type = 69

abbrev pub ord_status : ℕ
ord_status = 70

abbrev pub price : ℕ
price = 72

abbrev pub order_qty : ℕ
order_qty = 80

abbrev pub last_px : ℕ
last_px = 88

abbrev pub last_qty : ℕ
last_qty = 96

abbrev pub leaves_qty : ℕ
leaves_qty = 104

abbrev pub cum_qty : ℕ
cum_qty = 112

abbrev pub avg_px : ℕ
avg_px = 120

abbrev pub transact_time : ℕ
transact_time = 128
