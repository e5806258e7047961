-- ===== src/Parser/Indexed/Found.antt =====
-- What the lookup of an indexed message finds, and which messages the strict parser refuses.
use nexus_fix.Base.{
  ℕ, zero, suc, ◌≡◌, refl, sym, ap, ◌∙◌, Bool, true, false, ◌&&◌, ◌||◌, List, [], ◌∷◌, ◌++◌, Bytes,
  ◌==◌, if◌then◌else◌, length, any, get_or, replicate, Bool-cases, inl, inr, arith,
}
use mathlib.Core.List.{append-nil, reverse}
use nexus_fix.Types.{ok}
use nexus_fix.Types.Results.{bind-ok, ok-injective, ParseResult-cases, err≢ok}
use nexus_fix.Parser.FieldView.{FieldView, no_field, iterate}
use nexus_fix.Parser.FieldTable.{FieldTable, new_table, get, find_overflow, set_field}
use nexus_fix.Parser.FieldTable.Lookup.{
  IsTable, in_array, last_from, find_overflow-first, met, new_table-IsTable, set_field-IsTable,
  set_field-get, set_field-find_overflow, set_field-met, set_field-unmet,
}
use nexus_fix.Parser.Header.{parse_header}
use nexus_fix.Parser.Frame.{validate_checksum, validate_body_length}
use nexus_fix.Parser.Indexed.{
  Group, no_group, track_group, may_repeat, index_field, index_fields, max_tag, max_overflow,
  IndexedParser, parse_indexed,
}
use nexus_fix.Parser.Indexed.Fields.{
  Reads, is_spared, repeats, group_of, track_group-group_of, may_repeat-group_of, index_all, Valid,
  index_loop-split,
}

get_or-replicate : {A : Type 0} (n i : ℕ) (d : A) → get_or (replicate n d) i d ≡ d
get_or-replicate zero i d = refl
get_or-replicate (suc n) zero d = refl
get_or-replicate (suc n) (suc i) d = get_or-replicate n i d

module _ (strict : Bool) where
  abbrev lookup : FieldTable → ℕ → FieldView
  lookup = get max_tag max_overflow strict

  abbrev group_after : Group → ℕ → Group
  group_after g tag = if strict then track_group g tag else g

  -- One field goes into the table of the parser.
  index_field-sets :
      (g : Group) (t : FieldTable) (f : FieldView) (s' : Group × FieldTable)
      → index_field strict (g, t) f ≡ ok s'
      → (s'.0 ≡ group_after g f.tag)
        × (set_field max_tag max_overflow strict t f.tag f.value
              (strict && may_repeat (group_after g f.tag) f.tag)
            ≡ ok s'.1)
  unfolding index_field
  index_field-sets g t f s' e =
      let (t', set_ok, same) =
        bind-ok
          (set_field max_tag max_overflow strict t f.tag f.value
            (strict && may_repeat (group_after g f.tag) f.tag))
          _ s' e in
      let pair : (group_after g f.tag, t') ≡ s' = ok-injective _ _ same in
      (
        ap (λ (p : Group × FieldTable). p.0) (sym pair),
        set_ok ∙ ap (λ (p : Group × FieldTable). ok p.1) pair,
      )

  index_all-get :
      (fs : List FieldView) (g : Group) (t : FieldTable) (s' : Group × FieldTable) (tag : ℕ)
      → Valid strict fs
      → IsTable max_tag max_overflow strict t
      → index_all strict (g, t) fs ≡ ok s'
      → in_array max_tag max_overflow strict tag ≡ true
      → lookup s'.1 tag ≡ last_from (lookup t tag) tag fs
  unfolding index_all last_from
  index_all-get [] g t s' tag v w e inside =
      ap (λ (p : Group × FieldTable). lookup p.1 tag) (sym (ok-injective (g, t) s' e))
  index_all-get (f ∷ fs) g t s' tag (valid, v) w e inside =
      elim (ParseResult-cases (index_field strict (g, t) f)) [
        | inr (code, tag', offset, failed) ↦
            absurd (err≢ok code tag' offset s' (rw (failed, index_all) at e))
        | inl ((g', t'), indexed) ↦
            let allow = strict && may_repeat (group_after g f.tag) f.tag in
            let (_, set_ok) = index_field-sets g t f (g', t') indexed in
            index_all-get fs g' t' s' tag v
              (set_field-IsTable max_tag max_overflow strict t t' f allow valid set_ok w)
              (rw (indexed, index_all) at e) inside
            ∙ ap (λ (h : FieldView). last_from h tag fs)
                (set_field-get max_tag max_overflow strict t t' f allow tag valid w set_ok inside)
      ]

  index_all-find_overflow :
      (fs : List FieldView) (g : Group) (t : FieldTable) (s' : Group × FieldTable) (tag : ℕ)
      → Valid strict fs
      → index_all strict (g, t) fs ≡ ok s'
      → in_array max_tag max_overflow strict tag ≡ false
      → find_overflow s'.1.overflow tag ≡ find_overflow (t.overflow ++ fs) tag
  unfolding index_all
  index_all-find_overflow [] g t s' tag v e outside =
      ap (λ (p : Group × FieldTable). find_overflow p.1.overflow tag)
        (sym (ok-injective (g, t) s' e))
      ∙ ap (λ (fs : List FieldView). find_overflow fs tag) (sym (append-nil t.overflow))
  index_all-find_overflow (f ∷ fs) g t s' tag (valid, v) e outside =
      elim (ParseResult-cases (index_field strict (g, t) f)) [
        | inr (code, tag', offset, failed) ↦
            absurd (err≢ok code tag' offset s' (rw (failed, index_all) at e))
        | inl ((g', t'), indexed) ↦
            let allow = strict && may_repeat (group_after g f.tag) f.tag in
            let (_, set_ok) = index_field-sets g t f (g', t') indexed in
            index_all-find_overflow fs g' t' s' tag v (rw (indexed, index_all) at e) outside
            ∙ set_field-find_overflow max_tag max_overflow strict t t' f allow tag fs valid set_ok
                outside
      ]

  -- A strict parser that goes through has met no tag twice that must not repeat.
  index_all-repeats :
      (fs : List FieldView) (t : FieldTable) (s' : Group × FieldTable) (tags : List ℕ)
      → strict ≡ true
      → Valid strict fs
      → IsTable max_tag max_overflow strict t
      → ((tag : ℕ) → met max_tag max_overflow strict t tag ≡ any (λ u. u == tag) tags)
      → index_all strict (group_of tags, t) fs ≡ ok s'
      → repeats tags fs ≡ false
  unfolding index_all repeats
  index_all-repeats [] t s' tags on v w known e = refl
  index_all-repeats (f ∷ fs) t s' tags on (valid, v) w known e =
      let g = group_of tags in
      elim (ParseResult-cases (index_field strict (g, t) f)) [
        | inr (code, tag', offset, failed) ↦
            absurd (err≢ok code tag' offset s' (rw (failed, index_all) at e))
        | inl ((g', t'), indexed) ↦
            let allow = strict && may_repeat (group_after g f.tag) f.tag in
            let (moved, set_ok) = index_field-sets g t f (g', t') indexed in
            let tracked : g' ≡ group_of (f.tag ∷ tags) =
              moved ∙ rw on (track_group-group_of tags f.tag) in
            let known' : (tag : ℕ)
                → met max_tag max_overflow strict t' tag ≡ any (λ u. u == tag) (f.tag ∷ tags) =
              λ tag.
                set_field-met max_tag max_overflow strict t t' f allow tag on valid w set_ok
                ∙ unfold any in ap (λ b. (f.tag == tag) || b) (known tag) in
            let e' : index_all strict (g', t') fs ≡ ok s' = rw (indexed, index_all) at e in
            let rest =
              index_all-repeats fs t' s' (f.tag ∷ tags) on v
                (set_field-IsTable max_tag max_overflow strict t t' f allow valid set_ok w) known'
                (rw tracked at e') in
            let spared = may_repeat-group_of tags f.tag in
            elim (Bool-cases (is_spared tags f.tag)) [
              | inl allowed ↦ rw allowed rest
              | inr forbidden ↦
                  let forbids : allow ≡ false =
                    rw on (rw (track_group-group_of tags f.tag) (spared ∙ forbidden)) in
                  let set_off = rw forbids at set_ok in
                  let fresh : any (λ u. u == f.tag) tags ≡ false =
                    sym (known f.tag)
                    ∙ set_field-unmet max_tag max_overflow strict t t' f on valid set_off in
                  rw (forbidden, fresh) rest
            ]
      ]

  lookup-new : (tag : ℕ) → lookup (new_table max_tag max_overflow strict) tag ≡ no_field
  unfolding get find_overflow
  lookup-new tag = elim (Bool-cases (in_array max_tag max_overflow strict tag)) [
    | inl inside ↦ rw inside (get_or-replicate max_tag tag no_field)
    | inr outside ↦ rw outside refl
  ]

  met-new :
      (tag : ℕ)
      → met max_tag max_overflow strict (new_table max_tag max_overflow strict) tag
        ≡ any (λ u. u == tag) []
  unfolding any
  met-new tag = elim (Bool-cases (in_array max_tag max_overflow strict tag)) [
    | inl inside ↦ rw inside (get_or-replicate max_tag tag false)
    | inr outside ↦ rw outside refl
  ]

  lookup-outside :
      (t : FieldTable) (tag : ℕ)
      → in_array max_tag max_overflow strict tag ≡ false
      → lookup t tag ≡ find_overflow t.overflow tag
  unfolding get
  lookup-outside t tag outside = rw outside refl

  indexed_fields :
      (bytes : Bytes) (p : IndexedParser)
      → parse_indexed strict bytes ≡ ok p
      → (s : Group × FieldTable) × (index_fields strict bytes ≡ ok s) × (s.1 ≡ p.field_table)
  unfolding parse_indexed
  indexed_fields bytes p e =
      let ((header, body_start), _, e) = bind-ok (parse_header bytes) _ p e in
      let (_, _, e) = bind-ok (validate_body_length bytes header.body_length) _ p e in
      let (s, indexed, e) = bind-ok (index_fields strict bytes) _ p e in
      let (_, _, e) = bind-ok (validate_checksum bytes) _ p e in
      (s, indexed, ap (λ (q : IndexedParser). q.field_table) (ok-injective _ p e))

  -- When the indexed parser, strict or not, accepts a message, then of the fields that stand in
  -- it up to the checksum the lookup of a tag below 512 finds the last one with the tag, and
  -- the lookup of any other tag the first one; where there is none, it finds no field.
  pub parse_indexed-get :
      (bytes : Bytes) (p : IndexedParser)
      → parse_indexed strict bytes ≡ ok p
      → (fs : List FieldView) × Reads (iterate bytes) fs
        × ((tag : ℕ)
            → lookup p.field_table tag ≡ (
                if in_array max_tag max_overflow strict tag
                then last_from no_field tag fs
                else last_from no_field tag (reverse fs)))
  parse_indexed-get bytes p e =
      let (s, indexed, same) = indexed_fields bytes p e in
      let start = new_table max_tag max_overflow strict in
      let (fs, reads, all, valid) =
        index_loop-split strict (suc (length bytes)) (no_group, start) s (iterate bytes)
          (omega arith) indexed in
      (
        fs,
        reads,
        λ tag. elim (Bool-cases (in_array max_tag max_overflow strict tag)) [
          | inl inside ↦
              rw (← same, inside)
                (index_all-get fs no_group start s tag valid
                    (new_table-IsTable max_tag max_overflow strict) all inside
                  ∙ ap (λ (f : FieldView). last_from f tag fs) (lookup-new tag))
          | inr outside ↦
              rw (← same, outside)
                (lookup-outside s.1 tag outside
                  ∙ index_all-find_overflow fs no_group start s tag valid all outside
                  ∙ find_overflow-first fs tag)
        ],
      )

-- A message that the strict indexed parser accepts has no field up to the checksum that repeats
-- the tag of an earlier one, unless the message counts a repeating group before the field, and
-- the field and all fields behind the last such count are members of the group that it counts.
pub parse_indexed-repeats :
    (bytes : Bytes) (p : IndexedParser)
    → parse_indexed true bytes ≡ ok p
    → (fs : List FieldView) × Reads (iterate bytes) fs × (repeats [] fs ≡ false)
parse_indexed-repeats bytes p e =
    let (s, indexed, _) = indexed_fields true bytes p e in
    let start = new_table max_tag max_overflow true in
    let (fs, reads, all, valid) =
      index_loop-split true (suc (length bytes)) (no_group, start) s (iterate bytes) (omega arith)
        indexed in
    (
      fs,
      reads,
      index_all-repeats true fs start s [] refl valid (new_table-IsTable max_tag max_overflow true)
          (met-new true) all,
    )
