-- ===== src/Sbe/Dispatch/Chosen.antt =====
-- A buffer with a header goes to the codec of its template.
use nexus_fix.Base.{ℕ, ◌≤◌, ◌≡◌, refl, true, false, Bytes, some, ltb, leb, length, arith}
use nexus_fix.Sbe.Header.{header_size, template_id, is_valid_header}
use nexus_fix.Sbe.Dispatch.{dispatch, by_template}

pub dispatch-by_template :
    (buffer : Bytes) (id : ℕ)
    → header_size ≤ length buffer
    → template_id buffer ≡ id
    → dispatch (some buffer) ≡ by_template id buffer
unfolding dispatch is_valid_header
dispatch-by_template buffer id h e =
    let room : ltb (length buffer) header_size ≡ false = ground arith in
    let fits : leb header_size (length buffer) ≡ true = ground arith in rw (room, fits, e) refl
