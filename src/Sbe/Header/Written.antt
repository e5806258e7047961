-- ===== src/Sbe/Header/Written.antt =====
-- The header reads back what was written.
use nexus_fix.Base.{
  ℕ, ◌+◌, ◌^◌, ◌≤◌, ◌<◌, ◌≡◌, refl, ap, ◌∙◌, true, false, some, ltb, leb, ◌==◌, List, [], ◌∷◌,
  Bytes, length, get_or, set, arith,
}
use nexus_fix.Sbe.Bytes.{read_le, write_le}
use nexus_fix.Sbe.Layout.{slices, slices-overwrite, length-overwrite, read_le-write_le}
use nexus_fix.Sbe.Header.{
  header_size, schema_id, schema_version, block_length, template_id, read_schema_id, read_version,
  write_header, write_uint16, is_message, is_valid_header,
}

abbrev layout : List (ℕ × ℕ)
layout = (0, 2) ∷ (2, 2) ∷ (4, 2) ∷ (6, 2) ∷ []

pub length-write_header :
    (block template : ℕ) (buffer : Bytes)
    → length (write_header block template buffer) ≡ length buffer
unfolding write_header
length-write_header block template buffer =
    length-overwrite 6 (write_le 2 schema_version) _
    ∙ length-overwrite 4 (write_le 2 schema_id) _
    ∙ length-overwrite 2 (write_le 2 template) _
    ∙ length-overwrite 0 (write_le 2 block) buffer

-- The four fields of the header.
slices-write_header :
    (block template : ℕ) (buffer : Bytes)
    → header_size ≤ length buffer
    → slices layout (write_header block template buffer)
      ≡ write_le 2 block
        ∷ write_le 2 template
        ∷ write_le 2 schema_id
        ∷ write_le 2 schema_version
        ∷ []
unfolding write_header
slices-write_header block template buffer h =
    let b0 = write_uint16 0 block buffer in
    let b1 = write_uint16 2 template b0 in
    let b2 = write_uint16 4 schema_id b1 in
    let n0 = length-overwrite 0 (write_le 2 block) buffer in
    let n1 = length-overwrite 2 (write_le 2 template) b0 in
    let n2 = length-overwrite 4 (write_le 2 schema_id) b1 in
    let at0 = slices-overwrite layout 0 2 (write_le 2 block) buffer refl (omega arith) refl in
    let at2 = slices-overwrite layout 2 2 (write_le 2 template) b0 refl (omega arith) refl in
    let at4 = slices-overwrite layout 4 2 (write_le 2 schema_id) b1 refl (omega arith) refl in
    slices-overwrite layout 6 2 (write_le 2 schema_version) b2 refl (omega arith) refl
    ∙ ap (λ (ss : List Bytes). set ss 3 (write_le 2 schema_version))
        (at4
          ∙ ap (λ (ss : List Bytes). set ss 2 (write_le 2 schema_id))
              (at2 ∙ ap (λ (ss : List Bytes). set ss 1 (write_le 2 template)) at0))

pub written :
    (block template : ℕ) (buffer : Bytes)
    → block < 2 ^ 16
    → template < 2 ^ 16
    → header_size ≤ length buffer
    → let header = write_header block template buffer in
      (template_id header ≡ template)
      × (block_length header ≡ block)
      × (read_schema_id header ≡ schema_id)
      × (read_version header ≡ schema_version)
written block template buffer hb ht h =
    let fields = slices-write_header block template buffer h in
    let part : (i : ℕ) → List Bytes → ℕ = λ i ss. read_le (get_or ss i []) in
    (
      ap (part 1) fields ∙ read_le-write_le 2 template (omega arith),
      ap (part 0) fields ∙ read_le-write_le 2 block (omega arith),
      ap (part 2) fields,
      ap (part 3) fields,
    )

-- Room and the right header make a message valid.
pub is_message-true :
    (template block : ℕ) (buffer : Bytes)
    → header_size + block ≤ length buffer
    → template_id buffer ≡ template
    → block_length buffer ≡ block
    → is_message template block (some buffer) ≡ true
unfolding is_message is_valid_header
is_message-true template block buffer h t b =
    let room : ltb (length buffer) (header_size + block) ≡ false = ground arith in
    let fits : leb header_size (length buffer) ≡ true = ground arith in
    let self : (n : ℕ) → (n == n) ≡ true = λ n. ground arith in
    rw (room, fits, t, b, self template, self block) refl
