-- ===== src/Sbe/NewOrderSingle/Offset.antt =====
-- include/nexusfix/sbe/codecs/new_order_single.hpp: the offsets of the fields behind the header.
use nexus_fix.Base.{ℕ}

abbrev pub cl_ord_id : ℕ
cl_ord_id = 0

abbrev pub symbol : ℕ
symbol = 20

abbrev pub side : ℕ
side = 28

abbrev pub ord_type : ℕ
ord_type = 29

abbrev pub price : ℕ
price = 32

abbrev pub order_qty : ℕ
order_qty = 40

abbrev pub transact_time : ℕ
transact_time = 48
