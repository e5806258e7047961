-- ===== src/Parser/Group/Entries.antt =====
-- Where the entries of a repeating group lie: include/nexusfix/parser/repeating_group.hpp.
use nexus_fix.Base.{
  ℕ, zero, suc, ◌+◌, ◌-◌, ◌≤◌, ◌<◌, ◌≡◌, refl, sym, ◌∙◌, inl, inr, ◌⊎◌, Bool, true, false, ◌&&◌, [],
  ◌∷◌, arith, ltb, leb, ◌==◌, if◌then◌else◌, Bytes, length, take, drop, drop-drop, Bool-cases,
}
use nexus_fix.Types.{soh}
use nexus_fix.Messages.Assembler.{to_digits}
use nexus_fix.Parser.Frame.{at}
use nexus_fix.Parser.Boundary.Bounds.{at-drop, length-drop}
use nexus_fix.Parser.Group.{
  Entry, phantom, tag_matches, find_field, checksum_at, skip_field, RepeatingGroupIterator,
  new_iterator, find_next_entry_start, next_entry,
}

-- How many of the fields that begin in the first `n` bytes pass a test; `boundary` tells whether one
-- begins with the first byte.
unfoldable pub fields_with : (Bytes → Bool) → Bool → ℕ → Bytes → ℕ
fields_with test boundary zero bytes = 0
fields_with test boundary (suc n) [] = 0
fields_with test boundary (suc n) (c ∷ cs) =
    (if boundary && test (c ∷ cs) then 1 else 0) + fields_with test (c == soh) n cs

-- Whether a field begins at a position, the bytes in front of it being `bytes`.
abbrev pub begins_field : Bytes → ℕ → Bool
begins_field bytes zero = true
begins_field bytes (suc n) = at bytes n == soh

and_left : (a b : Bool) → a && b ≡ true → a ≡ true
and_left a b h = ground arith

and_right : (a b : Bool) → a && b ≡ true → b ≡ true
and_right a b h = ground arith

-- Whether the byte in front of the position `k` ends a field; in front of all bytes stands `boundary`.
abbrev opens : Bool → Bytes → ℕ → Bool
opens boundary bytes zero = boundary
opens boundary bytes (suc n) = at bytes n == soh

opens-cons :
    (boundary : Bool) (c : ℕ) (cs : Bytes) (k : ℕ)
    → opens boundary (c ∷ cs) (suc k) ≡ opens (c == soh) cs k
opens-cons boundary c cs zero = refl
opens-cons boundary c cs (suc k) = refl

-- A search that ends `k` bytes on has passed no field that it looks for, and ends at such a field or at
-- the end of the bytes.
record IsFirst (test : Bytes → Bool) (boundary : Bool) (bytes : Bytes) (k : ℕ) : Type 0 where
  bound : k ≤ length bytes
  passed : fields_with test boundary k bytes ≡ 0
  found : (k ≡ length bytes) ⊎ ((test (drop k bytes) && opens boundary bytes k) ≡ true)

find_field-IsFirst :
    (test : Bytes → Bool) (boundary : Bool) (bytes : Bytes) (pos : ℕ)
    → (k : ℕ) × (find_field test boundary bytes pos ≡ pos + k) × IsFirst test boundary bytes k
unfolding find_field fields_with
find_field-IsFirst test boundary [] pos =
    (0, omega arith, record { bound = omega arith; passed = refl; found = inl refl })
find_field-IsFirst test boundary (c ∷ cs) pos = elim (Bool-cases (boundary && test (c ∷ cs))) [
  | inl here ↦ (
    0,
    rw here (omega arith),
    record {
      bound = omega arith;
      passed = refl;
      found = inr (ground (arith, and_left boundary _ here, and_right boundary _ here));
    },
  )
  | inr further ↦
      let (k, same, v) = find_field-IsFirst test (c == soh) cs (pos + 1) in
      (
        suc k,
        rw further (omega (arith, same)),
        record {
          bound = omega (arith, v.bound);
          passed = rw further (omega (arith, v.passed));
          found = elim (v.found) [
            | inl end ↦ inl (omega (arith, end))
            | inr field ↦ inr (rw (opens-cons boundary c cs k) field)
          ];
        },
      )
]

-- Skipping a field goes to the byte behind its SOH; what is behind counts on from there.
record IsSkipped (bytes : Bytes) (j : ℕ) : Type 0 where
  bound : j ≤ length bytes
  moved : (length bytes ≡ 0) ⊎ (0 < j)
  opened : (j ≡ length bytes) ⊎ (opens false bytes j ≡ true)
  counts :
      (test : Bytes → Bool) (k : ℕ)
      → fields_with test true k (drop j bytes) ≡ 0
      → fields_with test false (j + k) bytes ≡ 0

fields_with-suc :
    (test : Bytes → Bool) (n : ℕ) (c : ℕ) (cs : Bytes)
    → fields_with test false (suc n) (c ∷ cs) ≡ fields_with test (c == soh) n cs
unfolding fields_with
fields_with-suc test n c cs = omega arith

fields_with-nil :
    (test : Bytes → Bool) (boundary : Bool) (n : ℕ) → fields_with test boundary n [] ≡ 0
unfolding fields_with
fields_with-nil test boundary zero = refl
fields_with-nil test boundary (suc n) = refl

skip_field-IsSkipped :
    (bytes : Bytes) (pos : ℕ) → (j : ℕ) × (skip_field bytes pos ≡ pos + j) × IsSkipped bytes j
unfolding skip_field
skip_field-IsSkipped [] pos = (
  0,
  omega arith,
  record {
    bound = omega arith;
    moved = inl refl;
    opened = inl refl;
    counts = λ test k h. fields_with-nil test false (0 + k);
  },
)
skip_field-IsSkipped (c ∷ cs) pos = elim (Bool-cases (c == soh)) [
  | inl ends ↦ (
    1,
    rw ends refl,
    record {
      bound = omega arith;
      moved = inr (omega arith);
      opened = inr ends;
      counts = λ test k h.
          let next : 1 + k ≡ suc k = omega arith in rw (next, fields_with-suc test k c cs, ends) h;
    },
  )
  | inr inside ↦
      let (j, same, v) = skip_field-IsSkipped cs (pos + 1) in
      (
        suc j,
        rw inside (omega (arith, same)),
        record {
          bound = omega (arith, v.bound);
          moved = inr (omega arith);
          opened = elim (v.opened) [
            | inl end ↦ inl (omega (arith, end))
            | inr begun ↦ inr (opens-cons false c cs j ∙ rw inside begun)
          ];
          counts = λ test k h.
              let next : suc j + k ≡ suc (j + k) = omega arith in
              rw (next, fields_with-suc test (j + k) c cs, inside) (v.counts test k h);
        },
      )
]

opens-begins :
    (bytes : Bytes) (start k : ℕ)
    → begins_field bytes start ≡ true
    → opens true (drop start bytes) k ≡ true
    → begins_field bytes (start + k) ≡ true
opens-begins bytes start zero b h = let same : start + 0 ≡ start = omega arith in rw same b
opens-begins bytes start (suc k) b h =
    let next : start + suc k ≡ suc (start + k) = omega arith in
    rw next (rw (at-drop start k bytes) at h)

opens-behind :
    (bytes : Bytes) (start j : ℕ)
    → opens false (drop start bytes) j ≡ true
    → begins_field bytes (start + j) ≡ true
opens-behind bytes start zero h = cc
opens-behind bytes start (suc j) h =
    let next : start + suc j ≡ suc (start + j) = omega arith in
    rw next (rw (at-drop start j bytes) at h)

-- A position at the end of the bytes, or at a field that passes a test.
abbrev pub IsAt : (Bytes → Bool) → Bytes → ℕ → Type 0
IsAt test bytes pos =
    (pos ≡ length bytes) ⊎ ((test (drop pos bytes) && begins_field bytes pos) ≡ true)

record IsFound (test : Bytes → Bool) (bytes : Bytes) (start end k : ℕ) : Type 0 where
  place : end ≡ start + k
  within : end ≤ length bytes
  passed : fields_with test true k (drop start bytes) ≡ 0
  ended : IsAt test bytes end

find_field-IsFound :
    (test : Bytes → Bool) (bytes : Bytes) (start : ℕ)
    → start ≤ length bytes
    → (start ≡ length bytes) ⊎ (begins_field bytes start ≡ true)
    → (k : ℕ) × IsFound test bytes start (find_field test true (drop start bytes) start) k
find_field-IsFound test bytes start h b =
    let (k, same, v) = find_field-IsFirst test true (drop start bytes) start in
    let left = length-drop start bytes in
    let place : drop (start + k) bytes ≡ drop k (drop start bytes) = drop-drop start k bytes in
    (
      k,
      record {
        place = same;
        within = omega (arith, same, v.bound, left, h);
        passed = v.passed;
        ended = elim (v.found) [
          | inl end ↦ inl (omega (arith, same, end, left, h))
          | inr field ↦ elim b [
            | inl end ↦ inl (omega (arith, same, v.bound, left, end))
            | inr begun ↦
                let behind =
                  opens-begins bytes start k begun
                    (and_right (test (drop k (drop start bytes))) _ field) in
                let tested = and_left (test (drop k (drop start bytes))) _ field in
                inr (rw (same, place, tested) behind)
          ]
        ];
      },
    )

-- What ends an entry: the next delimiter, or the checksum for the last one.
abbrev pub ends_entry : RepeatingGroupIterator → Bytes → Bool
ends_entry it =
    if leb it.total_count (it.current_index + 1)
    then checksum_at
    else tag_matches (to_digits it.delimiter_tag)

-- The iterator stands inside its bytes. While entries are left, it stands at a delimiter that begins a
-- field, unless the bytes are used up.
pub record IsPlaced (it : RepeatingGroupIterator) : Type 0 where
  pub inside : it.current_pos ≤ length it.bytes
  pub delimited :
      (it.total_count ≤ it.current_index)
      ⊎ IsAt (tag_matches (to_digits it.delimiter_tag)) it.bytes it.current_pos

-- What an entry is: the bytes from a delimiter on, behind which no field of the entry is one that ends an
-- entry, up to such a field or the end of the bytes.
pub record IsEntry (it it' : RepeatingGroupIterator) (entry : Entry) : Type 0 where
  pub start_pos : entry.start_pos ≡ it.current_pos
  pub end_pos : entry.end_pos ≡ it'.current_pos
  pub nonempty : entry.start_pos < entry.end_pos
  pub ends : entry.end_pos ≤ length it.bytes
  pub bytes : entry.bytes ≡ take (entry.end_pos - entry.start_pos) (drop entry.start_pos it.bytes)
  pub delimited :
      (tag_matches (to_digits it.delimiter_tag) (drop entry.start_pos it.bytes)
        && begins_field it.bytes entry.start_pos)
      ≡ true
  pub single :
      fields_with
        (ends_entry it)
        false
        (entry.end_pos - entry.start_pos)
        (drop entry.start_pos it.bytes)
      ≡ 0
  pub stopped : IsAt (ends_entry it) it.bytes entry.end_pos

find_next_entry_start-ends_entry :
    (it : RepeatingGroupIterator) (start : ℕ)
    → start ≡ skip_field (drop it.current_pos it.bytes) it.current_pos
    → find_next_entry_start it ≡ find_field (ends_entry it) true (drop start it.bytes) start
unfolding find_next_entry_start
find_next_entry_start-ends_entry it start e =
    rw e (elim (Bool-cases (leb it.total_count (it.current_index + 1))) [
      | inl last ↦ rw last refl
      | inr more ↦ rw more refl
    ])

-- Where the search for the end of an entry ends.
record IsNext (it : RepeatingGroupIterator) (end : ℕ) : Type 0 where
  past : it.current_pos < end
  within : end ≤ length it.bytes
  single :
      fields_with (ends_entry it) false (end - it.current_pos) (drop it.current_pos it.bytes) ≡ 0
  stopped : IsAt (ends_entry it) it.bytes end

find_next_entry_start-IsNext :
    (it : RepeatingGroupIterator)
    → it.current_pos < length it.bytes
    → IsNext it (find_next_entry_start it)
find_next_entry_start-IsNext it h =
    let rest = drop it.current_pos it.bytes in
    let left = length-drop it.current_pos it.bytes in
    let (j, skipped, s) = skip_field-IsSkipped rest it.current_pos in
    let start = it.current_pos + j in
    let inside : start ≤ length it.bytes = omega (arith, s.bound, left) in
    let opened : (start ≡ length it.bytes) ⊎ (begins_field it.bytes start ≡ true) =
      elim (s.opened) [
        | inl end ↦ inl (omega (arith, end, left))
        | inr begun ↦ inr (opens-behind it.bytes it.current_pos j begun)
      ] in
    let (k, v) = find_field-IsFound (ends_entry it) it.bytes start inside opened in
    let moved : 0 < j = elim (s.moved) [
      | inl none_left ↦ absurd (omega (arith, none_left, left))
      | inr some_left ↦ some_left
    ] in
    let behind : drop start it.bytes ≡ drop j rest = drop-drop it.current_pos j it.bytes in
    let counted = s.counts (ends_entry it) k (rw behind at v.passed) in
    let width : find_field (ends_entry it) true (drop start it.bytes) start - it.current_pos
        ≡ j + k =
      omega (arith, v.place) in
    rw (find_next_entry_start-ends_entry it start (sym skipped)) (record {
      past = omega (arith, v.place, moved);
      within = v.within;
      single = rw width counted;
      stopped = v.ended;
    })

pub new_iterator-IsPlaced :
    (bytes : Bytes) (tag count : ℕ) → IsPlaced (new_iterator bytes tag count)
unfolding new_iterator
new_iterator-IsPlaced bytes tag count =
    let (k, v) =
      find_field-IsFound (tag_matches (to_digits tag)) bytes 0 (omega arith) (inr refl) in
    elim (Bool-cases (ltb 0 count)) [
      | inl some_entry ↦ rw some_entry (record { inside = v.within; delimited = inr v.ended })
      | inr no_entry ↦ rw no_entry (record { inside = omega arith; delimited = inl (ground arith) })
    ]

-- An iterator over a repeating group stands inside its bytes and, while the count says that
-- entries are left and bytes are left too, at a delimiter that begins a field: it is the first
-- byte or has an SOH in front. `next` keeps it so and counts one entry. If bytes are left, the
-- entry is not empty, begins with the delimiter at which the iterator stood, and holds exactly
-- the bytes up to where the iterator stands then. That is where the next delimiter begins a
-- field or, for the last entry of the count, where the checksum does, and no field of the entry
-- behind its first one is such a field; without one it is the end of the bytes. If none are
-- left, the entry is empty and the mismatch of the count is recorded.
pub next_entry-IsEntry :
    (it : RepeatingGroupIterator)
    → IsPlaced it
    → it.current_index < it.total_count
    → IsPlaced (next_entry it).1
      × ((next_entry it).1.current_index ≡ it.current_index + 1)
      × (((it.current_pos < length it.bytes) × IsEntry it (next_entry it).1 (next_entry it).0)
          ⊎ ((it.current_pos ≡ length it.bytes)
              × ((next_entry it).0 ≡ phantom)
              × ((next_entry it).1.mismatch ≡ true)))
unfolding next_entry
next_entry-IsEntry it v h =
    let left : leb it.total_count it.current_index ≡ false = ground arith in
    let within = v.inside in
    elim (Bool-cases (leb (length it.bytes) it.current_pos)) [
      | inl used_up ↦
          rw (left, next_entry)
            (rw used_up (
              record { inside = within; delimited = inr (inl (ground arith)) },
              refl,
              inr (ground arith, refl, refl),
            ))
      | inr more ↦
          let n = find_next_entry_start-IsNext it (ground arith) in
          rw (left, next_entry)
            (rw more (
              record { inside = n.within; delimited = next_place it n.stopped },
              refl,
              inl (
                ground arith,
                record {
                  start_pos = refl;
                  end_pos = refl;
                  nonempty = n.past;
                  ends = n.within;
                  bytes = refl;
                  delimited = elim (v.delimited) [
                    | inl done ↦ absurd (omega (arith, done, h))
                    | inr (inl end) ↦ absurd (ground (arith, end, more))
                    | inr (inr delimiter) ↦ delimiter
                  ];
                  single = n.single;
                  stopped = n.stopped;
                },
              ),
            ))
    ]
  where
    next_place :
        (it : RepeatingGroupIterator) {end : ℕ}
        → IsAt (ends_entry it) it.bytes end
        → (it.total_count ≤ it.current_index + 1)
          ⊎ IsAt (tag_matches (to_digits it.delimiter_tag)) it.bytes end
    next_place it s = elim (Bool-cases (leb it.total_count (it.current_index + 1))) [
      | inl last ↦ inl (ground arith)
      | inr further ↦ inr (rw further at s)
    ]
