-- ===== src/Tests/Groups.antt =====
-- Repeating groups: include/nexusfix/parser/repeating_group.hpp.
use nexus_fix.Base.{
  ◌+◌, ◌<◌, ◌≡◌, ◌⊎◌, refl, [], ◌∷◌, ◌++◌, true, false, arith, Bytes, codes, length,
}
use nexus_fix.Types.{soh}
use nexus_fix.Messages.Assembler.{digits_loop, reverse_onto, to_digits}
use nexus_fix.Parser.Group.{
  phantom, tag_matches, find_field, RepeatingGroupIterator, new_iterator, next_entry, count_loop,
  ensure_actual_count, count_mismatch,
}
use nexus_fix.Parser.Group.Entries.{IsPlaced, IsEntry, new_iterator-IsPlaced, next_entry-IsEntry}

-- Two entries, with tag 269 in front of each.
abbrev two_entries : Bytes
two_entries =
    codes "262=R"
    ++ soh ∷ (codes "269=0" ++ soh ∷ (codes "270=1" ++ soh ∷ (codes "269=1" ++ soh ∷ [])))

abbrev group : RepeatingGroupIterator
group = new_iterator two_entries 269 2

next_entry-IsEntry_example :
    IsPlaced (next_entry group).1
    × ((next_entry group).1.current_index ≡ group.current_index + 1)
    × (((group.current_pos < length group.bytes)
          × IsEntry group (next_entry group).1 (next_entry group).0)
        ⊎ ((group.current_pos ≡ length group.bytes)
            × ((next_entry group).0 ≡ phantom)
            × ((next_entry group).1.mismatch ≡ true)))
unfolding new_iterator
next_entry-IsEntry_example =
    next_entry-IsEntry group (new_iterator-IsPlaced two_entries 269 2) (omega arith)

-- A count of two agrees with the delimiters of the bytes, and a count of three does not.
group_counted :
    ((count_mismatch group).0 ≡ false)
    × ((count_mismatch (new_iterator two_entries 269 3)).0 ≡ true)
unfolding new_iterator find_field tag_matches count_loop ensure_actual_count digits_loop
    reverse_onto to_digits
group_counted = (refl, refl)
