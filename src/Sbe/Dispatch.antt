-- ===== src/Sbe/Dispatch.antt =====
-- include/nexusfix/sbe/sbe.hpp: the choice of the codec of a received buffer, which the handler is
-- called with.
pub mod Chosen
use nexus_fix.Base.{ℕ, Bool, not, Option, none, some, Bytes, ltb, ◌==◌, if◌then◌else◌, length}
use nexus_fix.Sbe.Header.{
  header_size, template_id, is_valid_header, new_order_single_id, execution_report_id,
}

pub data Handled : Type 0 where
  new_order_single execution_report : Bytes → Handled
  unknown_message : ℕ → Option Bytes → Handled

abbrev pub by_template : ℕ → Bytes → Handled
by_template id buffer =
    if id == new_order_single_id
    then Handled.new_order_single buffer
    else if id == execution_report_id
    then Handled.execution_report buffer
    else Handled.unknown_message id (some buffer)

unfoldable pub dispatch : Option Bytes → Handled
dispatch none = Handled.unknown_message 0 none
dispatch (some buffer) =
    if ltb (length buffer) header_size
    then Handled.unknown_message 0 (some buffer)
    else if not (is_valid_header (some buffer))
    then Handled.unknown_message 0 (some buffer)
    else by_template (template_id buffer) buffer
