-- ===== src/Parser/FieldTable.antt =====
-- include/nexusfix/parser/field_view.hpp, FieldTable: an array for the tags below `max_tag`, and a list
-- of at most `max_overflow` fields for the others. `overflow` holds the first `overflow_count_` slots.
pub mod Lookup
use nexus_fix.Base.{
  ℕ, Bool, true, false, not, ◌&&◌, List, [], ◌∷◌, ◌++◌, Option, Bytes, ltb, ◌==◌, if◌then◌else◌,
  length, get_or, set, replicate, any,
}
use nexus_fix.Base.Words.{ℤ}
use nexus_fix.Types.{ParseErrorCode, duplicate_tag, overflow_exhausted, ParseResult, ok, err}
use nexus_fix.Parser.FieldView.{FieldView, no_field, as_int, as_char}

pub record FieldTable : Type 0 where
  pub entries : List FieldView
  pub overflow : List FieldView
  pub seen_tags : List Bool

-- Whether some field has the tag.
abbrev pub has_tag : ℕ → List FieldView → Bool
has_tag tag = any λ f. f.tag == tag

-- The first field of the list with the tag.
unfoldable pub find_overflow : List FieldView → ℕ → FieldView
find_overflow [] tag = no_field
find_overflow (f ∷ fs) tag = if f.tag == tag then f else find_overflow fs tag

module _ (max_tag max_overflow : ℕ) (strict : Bool) where
  abbrev pub new_table : FieldTable
  new_table = record {
    entries = replicate max_tag no_field;
    overflow = [];
    seen_tags = replicate max_tag false;
  }

  -- `set` for a tag of the array, and for a tag behind it.
  unfoldable pub set_entry : FieldTable → ℕ → Bytes → Bool → ParseResult FieldTable
  set_entry t tag value allow_dup =
      if strict && (not allow_dup && get_or t.seen_tags tag false)
      then err duplicate_tag tag 0
      else ok (record t {
        seen_tags = if strict then set t.seen_tags tag true else t.seen_tags;
        entries = set t.entries tag (record { tag = tag; value = value });
      })

  unfoldable pub set_overflow : FieldTable → ℕ → Bytes → Bool → ParseResult FieldTable
  set_overflow t tag value allow_dup =
      if strict && (not allow_dup && has_tag tag t.overflow)
      then err duplicate_tag tag 0
      else ok (record t { overflow = t.overflow ++ record { tag = tag; value = value } ∷ [] })

  unfoldable pub set_field : FieldTable → ℕ → Bytes → Bool → ParseResult FieldTable
  set_field t tag value allow_dup =
      if not (tag == 0) && ltb tag max_tag
      then set_entry t tag value allow_dup
      else if not (tag == 0) && ltb (length t.overflow) max_overflow
      then set_overflow t tag value allow_dup
      else if tag == 0
      then ok t
      else err overflow_exhausted tag 0

  unfoldable pub get : FieldTable → ℕ → FieldView
  get t tag =
      if not (tag == 0) && ltb tag max_tag
      then get_or t.entries tag no_field
      else find_overflow t.overflow tag

  unfoldable pub has : FieldTable → ℕ → Bool
  has t tag =
      if not (tag == 0) && ltb tag max_tag
      then not ((get_or t.entries tag no_field).tag == 0)
      else has_tag tag t.overflow

  abbrev pub get_string : FieldTable → ℕ → Bytes
  get_string t tag = (get t tag).value

  abbrev pub get_int : FieldTable → ℕ → Option ℤ
  get_int t tag = as_int (get_string t tag)

  abbrev pub get_char : FieldTable → ℕ → ℕ
  get_char t tag = as_char (get_string t tag)
