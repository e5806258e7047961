-- ===== src/Parser/Group.antt =====
-- include/nexusfix/parser/repeating_group.hpp, class RepeatingGroupIterator. A search runs over the
-- bytes from its position on.
pub mod Entries
use nexus_fix.Base.{
  ℕ, zero, suc, ◌+◌, ◌-◌, Bool, true, false, not, ◌&&◌, ◌||◌, [], ◌∷◌, ltb, leb, ◌==◌,
  if◌then◌else◌, Bytes, length, take, drop,
}
use nexus_fix.Types.{soh, equals}
use nexus_fix.Messages.Assembler.{to_digits}
use nexus_fix.Parser.FieldView.{FieldView, no_field, FieldIterator, iterate, has_next, next}

pub record Entry : Type 0 where
  pub bytes : Bytes
  pub start_pos : ℕ
  pub end_pos : ℕ

abbrev pub phantom : Entry
phantom = record { bytes = []; start_pos = 0; end_pos = 0 }

-- The loop of `Entry::get_field`. Each round takes a byte or more.
unfoldable pub get_loop : ℕ → FieldIterator → ℕ → FieldView
get_loop zero it target_tag = no_field
get_loop (suc fuel) it target_tag =
    let (field, it') = next it in
    let rest = get_loop fuel it' target_tag in
    if not (has_next it)
    then no_field
    else if field.tag == 0
    then no_field
    else if field.tag == target_tag
    then field
    else rest

abbrev pub get_field : Entry → ℕ → FieldView
get_field entry target_tag = get_loop (length entry.bytes) (iterate entry.bytes) target_tag

-- Whether a tag's digits and '=' stand in front.
unfoldable pub tag_matches : Bytes → Bytes → Bool
tag_matches [] [] = false
tag_matches [] (c ∷ cs) = c == equals
tag_matches (d ∷ ds) [] = false
tag_matches (d ∷ ds) (c ∷ cs) = c == d && tag_matches ds cs

-- The loop over the fields up to one that passes a test; `boundary` tells whether a field begins at the
-- position `pos`. The search for a tag and that for the checksum are this loop.
unfoldable pub find_field : (Bytes → Bool) → Bool → Bytes → ℕ → ℕ
find_field test boundary [] pos = pos
find_field test boundary (c ∷ cs) pos =
    let further = find_field test (c == soh) cs (pos + 1) in
    if boundary && test (c ∷ cs) then pos else further

abbrev pub find_tag_position : Bytes → ℕ → ℕ → ℕ
find_tag_position bytes start tag =
    find_field (tag_matches (to_digits tag)) true (drop start bytes) start

abbrev pub checksum_at : Bytes → Bool
checksum_at (a ∷ b ∷ c ∷ d ∷ cs) = a == b'1' && b == b'0' && c == equals
checksum_at cs = false

-- The position behind the next SOH, or the end of the bytes.
unfoldable pub skip_field : Bytes → ℕ → ℕ
skip_field [] pos = pos
skip_field (c ∷ cs) pos =
    let further = skip_field cs (pos + 1) in if c == soh then pos + 1 else further

pub record RepeatingGroupIterator : Type 0 where
  pub bytes : Bytes
  pub delimiter_tag : ℕ
  pub total_count : ℕ
  pub mismatch : Bool
  pub counted : Bool
  pub actual : ℕ
  pub current_index : ℕ
  pub current_pos : ℕ

-- The constructor.
unfoldable pub new_iterator : Bytes → ℕ → ℕ → RepeatingGroupIterator
new_iterator bytes delimiter_tag count = record {
  bytes = bytes;
  delimiter_tag = delimiter_tag;
  total_count = count;
  mismatch = false;
  counted = false;
  actual = 0;
  current_index = 0;
  current_pos = if ltb 0 count then find_tag_position bytes 0 delimiter_tag else 0;
}

unfoldable pub find_next_entry_start : RepeatingGroupIterator → ℕ
find_next_entry_start it =
    let search_start = skip_field (drop it.current_pos it.bytes) it.current_pos in
    if leb it.total_count (it.current_index + 1)
    then find_field checksum_at true (drop search_start it.bytes) search_start
    else find_tag_position it.bytes search_start it.delimiter_tag

unfoldable pub next_entry : RepeatingGroupIterator → Entry × RepeatingGroupIterator
next_entry it =
    let moved = record it { current_index = it.current_index + 1 } in
    let end = find_next_entry_start it in
    if leb it.total_count it.current_index
    then (phantom, it)
    else if leb (length it.bytes) it.current_pos
    then (phantom, record moved { mismatch = true })
    else (
      record {
        bytes = take (end - it.current_pos) (drop it.current_pos it.bytes);
        start_pos = it.current_pos;
        end_pos = end;
      },
      record moved { current_pos = end },
    )

-- The loop of `count_actual_delimiters`. Each round moves on by a byte or more.
unfoldable pub count_loop : ℕ → Bytes → ℕ → ℕ → ℕ → ℕ
count_loop zero bytes tag pos count = count
count_loop (suc fuel) bytes tag pos count =
    let found = find_tag_position bytes pos tag in
    let more = count_loop fuel bytes tag (found + 1) (count + 1) in
    if leb (length bytes) pos then count else if leb (length bytes) found then count else more

unfoldable pub ensure_actual_count : RepeatingGroupIterator → RepeatingGroupIterator
ensure_actual_count it =
    let n = count_loop (suc (length it.bytes)) it.bytes it.delimiter_tag 0 0 in
    if it.counted
    then it
    else record it { counted = true; actual = n; mismatch = not (n == it.total_count) }

abbrev pub actual_count : RepeatingGroupIterator → ℕ × RepeatingGroupIterator
actual_count it = let counted = ensure_actual_count it in (counted.actual, counted)

abbrev pub count_mismatch : RepeatingGroupIterator → Bool × RepeatingGroupIterator
count_mismatch it = let counted = ensure_actual_count it in (counted.mismatch, counted)
