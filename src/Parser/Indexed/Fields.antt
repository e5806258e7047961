-- ===== src/Parser/Indexed/Fields.antt =====
-- A parser that accepts a message has indexed its fields up to the checksum.
use nexus_fix.Base.{
  ℕ, zero, suc, ◌<◌, ◌≡◌, ◌≢◌, subst, Bool, true, false, not, ◌&&◌, ◌||◌, List, [], ◌∷◌, ◌==◌,
  length, any, all, refl, if◌then◌else◌, ◌∙◌, Bool-cases, inl, inr, arith,
}
use nexus_fix.Types.{ParseResult, ParseErrorCode, no_error, invalid_field_format, ok, err}
use nexus_fix.Types.Tag
use nexus_fix.Types.Results.{ok-injective, ParseResult-cases, err≢ok}
use nexus_fix.Parser.FieldView.{FieldView, FieldIterator, next, has_next, position}
use nexus_fix.Parser.FieldTable.{FieldTable}
use nexus_fix.Parser.Header.Rounds.{next_at-shorter}
use nexus_fix.Parser.Indexed.{
  Group, no_group, is_group_count_tag, is_group_member_tag, track_group, may_repeat, read_field,
  index_field, index_loop,
}

-- The fields that stand in a buffer from an iterator on, up to the checksum or the end.
pub data Reads : FieldIterator → List FieldView → Type 0 where
  ended : {it : FieldIterator} → has_next it ≡ false → Reads it []
  checksum :
      {it it' : FieldIterator} {f : FieldView}
      → read_field it ≡ ok (f, it')
      → (f.tag == Tag.check_sum) ≡ true
      → Reads it (f ∷ [])
  field :
      {it it' : FieldIterator} {f : FieldView} {fs : List FieldView}
      → read_field it ≡ ok (f, it')
      → (f.tag == Tag.check_sum) ≡ false
      → Reads it' fs
      → Reads it (f ∷ fs)

-- Of the tags of a message, the last one first: the last that counts a repeating group, and those
-- behind it.
abbrev pub last_count : List ℕ → ℕ
last_count [] = 0
last_count (t ∷ ts) = if is_group_count_tag t then t else last_count ts

abbrev pub since_count : List ℕ → List ℕ
since_count [] = []
since_count (t ∷ ts) = if is_group_count_tag t then [] else t ∷ since_count ts

-- Whether all tags behind the last count, and one more, are members of the group that it counts.
abbrev pub is_spared : List ℕ → ℕ → Bool
is_spared tags tag =
    not (is_group_count_tag tag)
    && all (is_group_member_tag (last_count tags)) (tag ∷ since_count tags)

-- Whether a field repeats the tag of an earlier one, and is not spared.
unfoldable pub repeats : List ℕ → List FieldView → Bool
repeats tags [] = false
repeats tags (f ∷ fs) =
    (not (is_spared tags f.tag) && any (λ t. t == f.tag) tags) || repeats (f.tag ∷ tags) fs

-- The group that the parser is in behind some tags.
abbrev standing : ℕ → Bool → Group
standing count_tag members =
    if not (count_tag == 0) && members
    then record { active_group_count_tag = count_tag; in_group = true }
    else no_group

abbrev pub group_of : List ℕ → Group
group_of tags =
    standing (last_count tags) (all (is_group_member_tag (last_count tags)) (since_count tags))

count-nonzero : (tag : ℕ) → is_group_count_tag tag ≡ true → (tag == 0) ≡ false
count-nonzero tag h = ground arith

count-no_member : (tag : ℕ) → is_group_count_tag tag ≡ true → is_group_member_tag tag tag ≡ false
unfolding is_group_member_tag
count-no_member tag h = ground arith

no_count : (tag : ℕ) → is_group_member_tag 0 tag ≡ false
unfolding is_group_member_tag
no_count tag = refl

track_group-standing :
    (count_tag tag : ℕ) (members : Bool)
    → is_group_count_tag tag ≡ false
    → track_group (standing count_tag members) tag
      ≡ standing count_tag (is_group_member_tag count_tag tag && members)
unfolding track_group
track_group-standing count_tag tag members h = elim (Bool-cases (count_tag == 0)) [
  | inl none_counted ↦ rw h (rw none_counted refl)
  | inr counted ↦ elim (Bool-cases (is_group_member_tag count_tag tag)) [
    | inl member ↦ elim (Bool-cases members) [
      | inl inside ↦ rw h (rw (counted, inside) (rw member refl))
      | inr left ↦ rw h (rw (counted, left) (rw member refl))
    ]
    | inr other ↦ elim (Bool-cases members) [
      | inl inside ↦ rw h (rw (counted, inside) (rw other refl))
      | inr left ↦ rw h (rw (counted, left) (rw other refl))
    ]
  ]
]

may_repeat-standing :
    (count_tag tag : ℕ) (members : Bool)
    → may_repeat (standing count_tag (is_group_member_tag count_tag tag && members)) tag
      ≡ (is_group_member_tag count_tag tag && members)
may_repeat-standing zero tag members = rw (no_count tag) refl
may_repeat-standing (suc n) tag members =
    let counted : (suc n == 0) ≡ false = ground arith in
    elim (Bool-cases (is_group_member_tag (suc n) tag)) [
      | inl member ↦ elim (Bool-cases members) [
        | inl inside ↦ rw (member, inside) (rw counted member)
        | inr left ↦ rw (member, left) (rw counted refl)
      ]
      | inr other ↦ rw other (rw counted refl)
    ]

pub track_group-group_of :
    (tags : List ℕ) (tag : ℕ) → track_group (group_of tags) tag ≡ group_of (tag ∷ tags)
unfolding track_group all
track_group-group_of tags tag = elim (Bool-cases (is_group_count_tag tag)) [
  | inl count ↦ rw count (rw (count-nonzero tag count) refl)
  | inr other ↦
      let known =
        track_group-standing (last_count tags) tag
          (all (is_group_member_tag (last_count tags)) (since_count tags)) other in
      known ∙ rw other refl
]

pub may_repeat-group_of :
    (tags : List ℕ) (tag : ℕ) → may_repeat (group_of (tag ∷ tags)) tag ≡ is_spared tags tag
unfolding all
may_repeat-group_of tags tag = elim (Bool-cases (is_group_count_tag tag)) [
  | inl count ↦ rw count (rw (count-nonzero tag count) (count-no_member tag count))
  | inr other ↦ rw other (
      may_repeat-standing (last_count tags) tag
        (all (is_group_member_tag (last_count tags)) (since_count tags)))
]

refused :
    (code : ParseErrorCode) (offset : ℕ) (r : FieldView × FieldIterator)
    → (elim code as (λ _. ParseResult (FieldView × FieldIterator)) [
      | no_error ↦ err invalid_field_format 0 offset
      | c ↦ err c 0 offset
    ])
      ≢ ok r
refused no_error offset r e = cc
refused _ offset r e = cc

-- A field that is read has a tag, and takes at least one byte.
read_field-valid :
    (it it' : FieldIterator) (f : FieldView)
    → read_field it ≡ ok (f, it')
    → ((f.tag == 0) ≡ false) × (length it'.rest < length it.rest)
unfolding read_field
read_field-valid it it' f e = elim (Bool-cases ((next it).0.tag == 0)) [
  | inl none_read ↦
      absurd (refused (next it).1.last_error (position it) (f, it') (rw none_read at e))
  | inr valid ↦
      let same : next it ≡ (f, it') = ok-injective _ _ (rw valid at e) in
      subst
        (λ (r : FieldView × FieldIterator).
          ((r.0.tag == 0) ≡ false) × (length r.1.rest < length it.rest))
        same (valid, next_at-shorter it it.rest valid)
]

module _ (strict : Bool) where
  unfoldable pub index_all : Group × FieldTable → List FieldView → ParseResult (Group × FieldTable)
  index_all s [] = ok s
  index_all s (f ∷ fs) = elim (index_field strict s f) [
    | err code tag offset ↦ err code tag offset
    | ok s' ↦ index_all s' fs
  ]

  abbrev pub Valid : List FieldView → Type 0
  Valid [] = Unit {0}
  Valid (f ∷ fs) = ((f.tag == 0) ≡ false) × Valid fs

  pub index_loop-split :
      (fuel : ℕ) (s s' : Group × FieldTable) (it : FieldIterator)
      → length it.rest < fuel
      → index_loop strict fuel s it ≡ ok s'
      → (fs : List FieldView) × Reads it fs × (index_all s fs ≡ ok s') × Valid fs
  unfolding index_loop index_all
  index_loop-split zero s s' it h e = absurd (omega arith)
  index_loop-split (suc fuel) s s' it h e = elim (Bool-cases (has_next it)) [
    | inr done ↦ ([], Reads.ended done, rw (done, index_loop) at e, tt)
    | inl goes ↦ elim (ParseResult-cases (read_field it)) [
      | inr (code, tag, offset, failed) ↦
          absurd
            (err≢ok code tag offset s' (rw (failed, index_loop) at (rw (goes, index_loop) at e)))
      | inl ((f, it'), read) ↦
          let e = rw (read, index_loop) at (rw (goes, index_loop) at e) in
          let (valid, shorter) = read_field-valid it it' f read in
          elim (ParseResult-cases (index_field strict s f)) [
            | inr (code, tag, offset, failed) ↦
                absurd (err≢ok code tag offset s' (rw (failed, index_loop) at e))
            | inl (t, indexed) ↦
                let e = rw (indexed, index_loop) at e in
                elim (Bool-cases (f.tag == Tag.check_sum)) [
                  | inl last ↦ (
                    f ∷ [],
                    Reads.checksum read last,
                    rw (indexed, index_all) (rw (last, index_loop) at e),
                    (valid, tt),
                  )
                  | inr inner ↦
                      let (fs, reads, all, rest) =
                        index_loop-split fuel t s' it' (omega arith)
                          (rw (inner, index_loop) at e) in
                      (
                        f ∷ fs,
                        Reads.field read inner reads,
                        rw (indexed, index_all) all,
                        (valid, rest),
                      )
                ]
          ]
    ]
  ]
