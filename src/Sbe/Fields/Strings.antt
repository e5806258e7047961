-- ===== src/Sbe/Fields/Strings.antt =====
-- What a field of a fixed number of bytes keeps of a text.
use nexus_fix.Base.{
  ℕ, zero, suc, ◌-◌, ◌≤◌, ◌≡◌, refl, sym, ap, ◌∙◌, [], ◌∷◌, ◌++◌, Bytes, ltb, ◌==◌, if◌then◌else◌,
  length, take, replicate, length-append, length-replicate, Bool-cases, inl, inr, arith,
}
use nexus_fix.Sbe.Bytes.{slice}
use nexus_fix.Sbe.Fields.{padding_char, trim_from, decode_string, encode_string}

abbrev pub cons_trimmed : ℕ → Bytes → Bytes
cons_trimmed c [] = if c == padding_char then [] else c ∷ []
cons_trimmed c (d ∷ text) = c ∷ d ∷ text

-- A text without the spaces at its end.
pub trimmed : Bytes → Bytes
trimmed [] = []
trimmed (c ∷ text) = cons_trimmed c (trimmed text)

-- The loop from the end, seen from the front.
trim_from_step :
    (c : ℕ) (bs : Bytes) (n : ℕ)
    → trim_from (c ∷ bs) (suc n)
      ≡ (if trim_from bs n == 0 then if c == padding_char then 0 else 1 else suc (trim_from bs n))
unfolding trim_from
trim_from_step c bs zero = ground arith
trim_from_step c bs (suc n) = ground (arith, trim_from_step c bs n)

trim_from-le : (bs : Bytes) (n : ℕ) → trim_from bs n ≤ n
unfolding trim_from
trim_from-le bs zero = omega arith
trim_from-le bs (suc n) = ground (arith, trim_from-le bs n)

take_trim_step :
    (c : ℕ) (bs : Bytes) (t n : ℕ)
    → t ≤ n
    → n ≤ length bs
    → take (if t == 0 then if c == padding_char then 0 else 1 else suc t) (c ∷ bs)
      ≡ cons_trimmed c (take t bs)
take_trim_step c bs zero n h1 h2 = ground arith
take_trim_step c [] (suc t) n h1 h2 = absurd (omega arith)
take_trim_step c (b ∷ bs) (suc t) n h1 h2 = ground arith

take_trim : (bs : Bytes) (n : ℕ) → n ≤ length bs → take (trim_from bs n) bs ≡ trimmed (take n bs)
unfolding trimmed
take_trim bs zero h = unfold trim_from in refl
take_trim [] (suc n) h = absurd (omega arith)
take_trim (c ∷ bs) (suc n) h = rw trim_from_step (
    take_trim_step c bs (trim_from bs n) n (trim_from-le bs n) (omega arith)
    ∙ ap (cons_trimmed c) (take_trim bs n (omega arith)))

trimmed-padding : (n : ℕ) → trimmed (replicate n padding_char) ≡ []
unfolding trimmed
trimmed-padding zero = refl
trimmed-padding (suc n) = rw (trimmed-padding n) refl

trimmed-append : (text : Bytes) (n : ℕ) → trimmed (text ++ replicate n padding_char) ≡ trimmed text
unfolding trimmed
trimmed-append [] n = trimmed-padding n
trimmed-append (c ∷ text) n = ap (cons_trimmed c) (trimmed-append text n)

length-take : (n : ℕ) (text : Bytes) → n ≤ length text → length (take n text) ≡ n
length-take zero text h = refl
length-take (suc n) [] h = absurd (omega arith)
length-take (suc n) (c ∷ text) h = ap suc (length-take n text (omega arith))

take_more : (n : ℕ) (text : Bytes) → length text ≤ n → take n text ≡ take (length text) text
take_more zero [] h = refl
take_more (suc n) [] h = refl
take_more zero (c ∷ text) h = absurd (omega arith)
take_more (suc n) (c ∷ text) h = ap (◌∷◌ c) (take_more n text (omega arith))

pub take_whole : (n : ℕ) (bs : Bytes) → n ≡ length bs → take n bs ≡ bs
take_whole zero [] e = refl
take_whole (suc n) [] e = refl
take_whole zero (b ∷ bs) e = absurd (omega arith)
take_whole (suc n) (b ∷ bs) e = ap (◌∷◌ b) (take_whole n bs (omega arith))

-- `n` bytes of a text, filled up to `size` bytes.
abbrev padded : ℕ → Bytes → ℕ → Bytes
padded size value n = take n value ++ replicate (size - n) padding_char

length-padded :
    (size : ℕ) (value : Bytes) (n : ℕ)
    → n ≤ size
    → n ≤ length value
    → length (padded size value n) ≡ size
length-padded size value n h1 h2 = omega (
  arith,
  length-append (take n value) (replicate (size - n) padding_char),
  length-take n value h2,
  length-replicate (size - n) padding_char,
)

decode_string-padded :
    (size : ℕ) (value : Bytes) (n : ℕ)
    → n ≤ size
    → n ≤ length value
    → decode_string size (padded size value n) ≡ trimmed (take n value)
decode_string-padded size value n h1 h2 =
    let fills = length-padded size value n h1 h2 in
    take_trim (padded size value n) size (omega arith)
    ∙ ap trimmed (take_whole size (padded size value n) (sym fills))
    ∙ trimmed-append (take n value) (size - n)

abbrev copy_len : ℕ → Bytes → ℕ
copy_len size value = if ltb size (length value) then size else length value

copy_len-le :
    (size : ℕ) (value : Bytes) → (copy_len size value ≤ size) × (copy_len size value ≤ length value)
copy_len-le size value = ground arith

take-copy_len : (size : ℕ) (value : Bytes) → take (copy_len size value) value ≡ take size value
take-copy_len size value = elim (Bool-cases (ltb size (length value))) [
  | inl e ↦ rw e refl
  | inr e ↦ rw e (sym (take_more size value (ground arith)))
]

pub length-encode_string : (size : ℕ) (value : Bytes) → length (encode_string size value).1 ≡ size
length-encode_string size value =
    let (small, inside) = copy_len-le size value in
    length-padded size value (copy_len size value) small inside

-- A field gives back the text that was written to it, cut off at the field's size and without the spaces
-- at its end.
pub decode_string-encode_string :
    (size : ℕ) (value : Bytes)
    → decode_string size (encode_string size value).1 ≡ trimmed (take size value)
decode_string-encode_string size value =
    let (small, inside) = copy_len-le size value in
    decode_string-padded size value (copy_len size value) small inside
    ∙ ap trimmed (take-copy_len size value)

-- The same, for the slice of the field.
pub written_string :
    (size : ℕ) (v : Bytes)
    → decode_string size (slice 0 size (encode_string size v).1) ≡ trimmed (take size v)
written_string size v =
    ap (decode_string size)
      (take_whole size (encode_string size v).1 (sym (length-encode_string size v)))
    ∙ decode_string-encode_string size v
