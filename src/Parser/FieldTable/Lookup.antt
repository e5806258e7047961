-- ===== src/Parser/FieldTable/Lookup.antt =====
-- What a table of fields finds after fields were put into it.
use nexus_fix.Base.{
  ℕ, ◌≡◌, refl, sym, ap, ◌∙◌, Bool, true, false, not, ◌&&◌, ◌||◌, List, [], ◌∷◌, ◌++◌, ltb, ◌==◌,
  if◌then◌else◌, length, get_or, set, any, length-set, length-replicate, get_or-set_self,
  get_or-set_ne, Bool-cases, inl, inr, ◌⊎◌, arith,
}
use mathlib.Core.List.{append_assoc, reverse, reverse-cons}
use nexus_fix.Types.{duplicate_tag, overflow_exhausted, ok}
use nexus_fix.Types.Results.{passes, ok-injective, err≢ok}
use nexus_fix.Parser.FieldView.{FieldView, no_field}
use nexus_fix.Parser.FieldTable.{
  FieldTable, has_tag, new_table, set_entry, set_overflow, set_field, find_overflow, get,
}

-- The last field of a list with the tag; `f` if there is none.
unfoldable pub last_from : FieldView → ℕ → List FieldView → FieldView
last_from f tag [] = f
last_from f tag (g ∷ gs) = last_from (if g.tag == tag then g else f) tag gs

last_from-snoc :
    (f : FieldView) (tag : ℕ) (fs : List FieldView) (g : FieldView)
    → last_from f tag (fs ++ g ∷ []) ≡ (if g.tag == tag then g else last_from f tag fs)
unfolding last_from
last_from-snoc f tag [] g = refl
last_from-snoc f tag (h ∷ fs) g = last_from-snoc (if h.tag == tag then h else f) tag fs g

-- The list is searched from its front: what is found is the last one in the reversed list.
pub find_overflow-first :
    (fs : List FieldView) (tag : ℕ) → find_overflow fs tag ≡ last_from no_field tag (reverse fs)
unfolding find_overflow last_from
find_overflow-first [] tag = refl
find_overflow-first (f ∷ fs) tag =
    rw (reverse-cons f fs, last_from-snoc no_field tag (reverse fs) f, find_overflow-first fs tag)
      refl

module _ (max_tag max_overflow : ℕ) (strict : Bool) where
  abbrev pub in_array : ℕ → Bool
  in_array tag = not (tag == 0) && ltb tag max_tag

  -- The array and the bit set keep their sizes.
  pub record IsTable (t : FieldTable) : Type 0 where
    pub slots : length t.entries ≡ max_tag
    pub bits : length t.seen_tags ≡ max_tag

  pub new_table-IsTable : IsTable (new_table max_tag max_overflow strict)
  new_table-IsTable = record {
    slots = length-replicate max_tag no_field;
    bits = length-replicate max_tag false;
  }

  -- The two ways in which a field with a tag goes into the table.
  pub record Entered (t t' : FieldTable) (f : FieldView) (allow : Bool) : Type 0 where
    pub entries : t'.entries ≡ set t.entries f.tag f
    pub overflow : t'.overflow ≡ t.overflow
    pub seen_tags : t'.seen_tags ≡ (if strict then set t.seen_tags f.tag true else t.seen_tags)
    pub free : (strict && (not allow && get_or t.seen_tags f.tag false)) ≡ false

  pub record Overflowed (t t' : FieldTable) (f : FieldView) (allow : Bool) : Type 0 where
    pub entries : t'.entries ≡ t.entries
    pub overflow : t'.overflow ≡ t.overflow ++ f ∷ []
    pub seen_tags : t'.seen_tags ≡ t.seen_tags
    pub free : (strict && (not allow && has_tag f.tag t.overflow)) ≡ false

  pub set_field-cases :
      (t t' : FieldTable) (f : FieldView) (allow : Bool)
      → (f.tag == 0) ≡ false
      → set_field max_tag max_overflow strict t f.tag f.value allow ≡ ok t'
      → ((in_array f.tag ≡ true) × Entered t t' f allow)
        ⊎ ((in_array f.tag ≡ false) × Overflowed t t' f allow)
  unfolding set_field set_entry set_overflow
  set_field-cases t t' f allow nz e = elim (Bool-cases (in_array f.tag)) [
    | inl inside ↦
        let (free, e) =
          passes (strict && (not allow && get_or t.seen_tags f.tag false)) duplicate_tag f.tag 0 _
            t' (rw inside at e) in
        let same = ok-injective _ t' e in
        inl (
          inside,
          record {
            entries = ap (λ (u : FieldTable). u.entries) (sym same);
            overflow = ap (λ (u : FieldTable). u.overflow) (sym same);
            seen_tags = ap (λ (u : FieldTable). u.seen_tags) (sym same);
            free = free;
          },
        )
    | inr outside ↦
        let e = rw outside at e in
        elim (Bool-cases (not (f.tag == 0) && ltb (length t.overflow) max_overflow)) [
          | inl room ↦
              let (free, e) =
                passes (strict && (not allow && has_tag f.tag t.overflow)) duplicate_tag f.tag 0 _
                  t' (rw room at e) in
              let same = ok-injective _ t' e in
              inr (
                outside,
                record {
                  entries = ap (λ (u : FieldTable). u.entries) (sym same);
                  overflow = ap (λ (u : FieldTable). u.overflow) (sym same);
                  seen_tags = ap (λ (u : FieldTable). u.seen_tags) (sym same);
                  free = free;
                },
              )
          | inr no_room ↦ absurd (err≢ok overflow_exhausted f.tag 0 t' (rw nz at (rw no_room at e)))
        ]
  ]

  pub set_field-IsTable :
      (t t' : FieldTable) (f : FieldView) (allow : Bool)
      → (f.tag == 0) ≡ false
      → set_field max_tag max_overflow strict t f.tag f.value allow ≡ ok t'
      → IsTable t
      → IsTable t'
  set_field-IsTable t t' f allow nz e s = elim (set_field-cases t t' f allow nz e) [
    | inl (inside, into) ↦ record {
      slots = ap length into.entries ∙ length-set t.entries f.tag f ∙ s.slots;
      bits = ap length into.seen_tags ∙ marked ∙ s.bits;
    }
    | inr (outside, into) ↦ record {
      slots = ap length into.entries ∙ s.slots;
      bits = ap length into.seen_tags ∙ s.bits;
    }
  ]
    where
      marked :
          length (if strict then set t.seen_tags f.tag true else t.seen_tags) ≡ length t.seen_tags
      marked = elim (Bool-cases strict) [
        | inl on ↦ rw on (length-set t.seen_tags f.tag true)
        | inr off ↦ rw off refl
      ]

  -- A tag of the array finds the new field if it is the field's tag, and what it found before otherwise.
  pub set_field-get :
      (t t' : FieldTable) (f : FieldView) (allow : Bool) (tag : ℕ)
      → (f.tag == 0) ≡ false
      → IsTable t
      → set_field max_tag max_overflow strict t f.tag f.value allow ≡ ok t'
      → in_array tag ≡ true
      → get max_tag max_overflow strict t' tag
        ≡ (if f.tag == tag then f else get max_tag max_overflow strict t tag)
  unfolding get
  set_field-get t t' f allow tag nz s e inside = elim (set_field-cases t t' f allow nz e) [
    | inl (here, into) ↦
        rw (inside, into.entries)
          (elim (Bool-cases (f.tag == tag)) [
            | inl same ↦
                rw same (ground (arith, s.slots, get_or-set_self t.entries f.tag f no_field))
            | inr other ↦ rw other (get_or-set_ne t.entries f.tag tag f no_field (ground arith))
          ])
    | inr (outside, into) ↦
        let other : (f.tag == tag) ≡ false = ground arith in rw (inside, into.entries, other) refl
  ]

  find_overflow-skip :
      (fs gs : List FieldView) (f : FieldView) (tag : ℕ)
      → (f.tag == tag) ≡ false
      → find_overflow (fs ++ f ∷ gs) tag ≡ find_overflow (fs ++ gs) tag
  unfolding find_overflow
  find_overflow-skip [] gs f tag h = rw h refl
  find_overflow-skip (g ∷ fs) gs f tag h =
      ap (λ r. if g.tag == tag then g else r) (find_overflow-skip fs gs f tag h)

  -- A tag behind the array finds the first of the fields put in.
  pub set_field-find_overflow :
      (t t' : FieldTable) (f : FieldView) (allow : Bool) (tag : ℕ) (gs : List FieldView)
      → (f.tag == 0) ≡ false
      → set_field max_tag max_overflow strict t f.tag f.value allow ≡ ok t'
      → in_array tag ≡ false
      → find_overflow (t'.overflow ++ gs) tag ≡ find_overflow (t.overflow ++ f ∷ gs) tag
  set_field-find_overflow t t' f allow tag gs nz e outside =
      elim (set_field-cases t t' f allow nz e) [
        | inl (here, into) ↦
            let other : (f.tag == tag) ≡ false = ground arith in
            ap (λ (fs : List FieldView). find_overflow (fs ++ gs) tag) into.overflow
            ∙ sym (find_overflow-skip t.overflow gs f tag other)
        | inr (_, into) ↦
            ap (λ (fs : List FieldView). find_overflow (fs ++ gs) tag) into.overflow
            ∙ ap (λ (fs : List FieldView). find_overflow fs tag)
                (append_assoc t.overflow (f ∷ []) gs)
      ]

  -- Whether a strict table takes a tag for one that it has met.
  abbrev pub met : FieldTable → ℕ → Bool
  met t tag = if in_array tag then get_or t.seen_tags tag false else has_tag tag t.overflow

  has_tag-snoc :
      (tag : ℕ) (fs : List FieldView) (f : FieldView)
      → has_tag tag (fs ++ f ∷ []) ≡ ((f.tag == tag) || has_tag tag fs)
  unfolding any
  has_tag-snoc tag [] f = refl
  has_tag-snoc tag (g ∷ fs) f = ground (arith, has_tag-snoc tag fs f)

  pub set_field-met :
      (t t' : FieldTable) (f : FieldView) (allow : Bool) (tag : ℕ)
      → strict ≡ true
      → (f.tag == 0) ≡ false
      → IsTable t
      → set_field max_tag max_overflow strict t f.tag f.value allow ≡ ok t'
      → met t' tag ≡ ((f.tag == tag) || met t tag)
  set_field-met t t' f allow tag on nz s e = elim (set_field-cases t t' f allow nz e) [
    | inl (here, into) ↦
        let bits : t'.seen_tags ≡ set t.seen_tags f.tag true = into.seen_tags ∙ rw on refl in
        rw (bits, into.overflow)
          (ground (
            arith,
            s.bits,
            get_or-set_self t.seen_tags f.tag true false,
            get_or-set_ne t.seen_tags f.tag tag true false,
          ))
    | inr (outside, into) ↦
        rw (into.seen_tags, into.overflow, has_tag-snoc tag t.overflow f) (ground arith)
  ]

  pub set_field-unmet :
      (t t' : FieldTable) (f : FieldView)
      → strict ≡ true
      → (f.tag == 0) ≡ false
      → set_field max_tag max_overflow strict t f.tag f.value false ≡ ok t'
      → met t f.tag ≡ false
  set_field-unmet t t' f on nz e = elim (set_field-cases t t' f false nz e) [
    | inl (here, into) ↦ rw here (rw on at into.free)
    | inr (outside, into) ↦ rw outside (rw on at into.free)
  ]
