-- ===== src/Parser/Timestamp/Exact.antt =====
-- The texts that parse_timestamp_scalar of include/nexusfix/parser/timestamp_parser.hpp accepts, and no
-- others.
use nexus_fix.Base.{
  ℕ, zero, suc, ◌+◌, ◌-◌, ◌*◌, ◌/◌, ◌≤◌, ◌<◌, ◌≡◌, ◌↔◌, refl, sym, ap, ◌∙◌, subst, inl, inr, Bool,
  true, false, ◌&&◌, List, [], ◌∷◌, ◌++◌, some, arith, ltb, ◌==◌, get_or, Bytes, length, all, take,
  drop, Bool-cases,
}
use mathlib.Core.Option.{some-injective, none-ne-some}
use nexus_fix.Parser.FieldView.{is_digit}
use nexus_fix.Parser.Frame.{at}
use nexus_fix.Parser.Timestamp.{
  ParsedTimestamp, timestamp_length, validate_separators, digit_positions, validate_ranges,
  assemble, in_range, parse_timestamp_scalar,
}
use nexus_fix.Parser.Timestamp.Agree.{read_bytes, take-read_bytes}
use nexus_fix.Parser.Timestamp.Printed.{
  digit, timestamp_text, IsTimestamp, parse_timestamp_scalar-text,
}

and_right : (a b : Bool) → a && b ≡ true → b ≡ true
and_right a b h = ground arith

-- Whatever passes a test for all positions passes it at each.
all_at :
    (test : ℕ → Bool) (ps : List ℕ) (i : ℕ)
    → all test ps ≡ true
    → i < length ps
    → test (get_or ps i 0) ≡ true
unfolding all
all_at test [] i h k = absurd (omega arith)
all_at test (p ∷ ps) zero h k = ground arith
all_at test (p ∷ ps) (suc i) h k = all_at test ps i (and_right (test p) _ h) (omega arith)

digit_of : (x : ℕ) → is_digit x ≡ true → x ≡ b'0' + (x - b'0') × x - b'0' < 10
digit_of x h = ground arith

-- The digits of a number of two, three or four places.
split_two :
    (a b : ℕ)
    → a < 10
    → b < 10
    → digit ((a * 10 + b) / 10) ≡ b'0' + a × digit (a * 10 + b) ≡ b'0' + b
split_two a b h k = omega arith

split_three :
    (a b c : ℕ)
    → a < 10
    → b < 10
    → c < 10
    → digit ((a * 100 + b * 10 + c) / 100) ≡ b'0' + a
      × digit ((a * 100 + b * 10 + c) / 10) ≡ b'0' + b
      × digit (a * 100 + b * 10 + c) ≡ b'0' + c
split_three a b c h k l = omega arith

split_four :
    (a b c d : ℕ)
    → a < 10
    → b < 10
    → c < 10
    → d < 10
    → digit ((a * 1000 + b * 100 + c * 10 + d) / 1000) ≡ b'0' + a
      × digit ((a * 1000 + b * 100 + c * 10 + d) / 100) ≡ b'0' + b
      × digit ((a * 1000 + b * 100 + c * 10 + d) / 10) ≡ b'0' + c
      × digit (a * 1000 + b * 100 + c * 10 + d) ≡ b'0' + d
split_four a b c d h k l m = omega arith

separators :
    (a b c d : ℕ)
    → a == b'-' && (b == b':' && (c == b':' && d == b'.')) ≡ true
    → a ≡ b'-' × b ≡ b':' × c ≡ b':' × d ≡ b'.'
separators a b c d h = ground arith

module _ (input : Bytes) (checked : all (λ p. is_digit (at input p)) digit_positions ≡ true) where
  d : ℕ → ℕ
  d i = at input i - b'0'

  small :
      (i : ℕ)
      → i < 17
      → at input (get_or digit_positions i 0) ≡ b'0' + d (get_or digit_positions i 0)
        × d (get_or digit_positions i 0) < 10
  unfolding d
  small i h =
      digit_of (at input (get_or digit_positions i 0))
        (all_at (λ p. is_digit (at input p)) digit_positions i checked h)

  value :
      (i : ℕ)
      → i < 17
      → at input (get_or digit_positions i 0) ≡ b'0' + d (get_or digit_positions i 0)
  value i h = (small i h).0

  bound : (i : ℕ) → i < 17 → d (get_or digit_positions i 0) < 10
  bound i h = (small i h).1

  spelled : validate_separators input ≡ true → read_bytes 21 0 input ≡ timestamp_text (assemble d)
  unfolding read_bytes validate_separators
  spelled h =
      let year =
        split_four (d 0) (d 1) (d 2) (d 3) (bound 0 (omega arith)) (bound 1 (omega arith))
          (bound 2 (omega arith)) (bound 3 (omega arith)) in
      let month = split_two (d 4) (d 5) (bound 4 (omega arith)) (bound 5 (omega arith)) in
      let day = split_two (d 6) (d 7) (bound 6 (omega arith)) (bound 7 (omega arith)) in
      let hour = split_two (d 9) (d 10) (bound 8 (omega arith)) (bound 9 (omega arith)) in
      let minute = split_two (d 12) (d 13) (bound 10 (omega arith)) (bound 11 (omega arith)) in
      let second = split_two (d 15) (d 16) (bound 12 (omega arith)) (bound 13 (omega arith)) in
      let millis =
        split_three (d 18) (d 19) (d 20) (bound 14 (omega arith)) (bound 15 (omega arith))
          (bound 16 (omega arith)) in
      let marks = separators (at input 8) (at input 11) (at input 14) (at input 17) h in
      rw
        (
          year.0, year.1, year.2, year.3, month.0, month.1, day.0, day.1, hour.0, hour.1, minute.0,
          minute.1, second.0, second.1, millis.0, millis.1, millis.2,
        )
        (λ j.
          (value 0 (omega arith) j)
          ∷ (value 1 (omega arith) j)
          ∷ (value 2 (omega arith) j)
          ∷ (value 3 (omega arith) j)
          ∷ (value 4 (omega arith) j)
          ∷ (value 5 (omega arith) j)
          ∷ (value 6 (omega arith) j)
          ∷ (value 7 (omega arith) j)
          ∷ (marks.0 j)
          ∷ (value 8 (omega arith) j)
          ∷ (value 9 (omega arith) j)
          ∷ (marks.1 j)
          ∷ (value 10 (omega arith) j)
          ∷ (value 11 (omega arith) j)
          ∷ (marks.2 j)
          ∷ (value 12 (omega arith) j)
          ∷ (value 13 (omega arith) j)
          ∷ (marks.3 j)
          ∷ (value 14 (omega arith) j)
          ∷ (value 15 (omega arith) j)
          ∷ (value 16 (omega arith) j)
          ∷ [])

take-drop : (n : ℕ) (bytes : Bytes) → take n bytes ++ drop n bytes ≡ bytes
take-drop zero bytes = refl
take-drop (suc n) [] = refl
take-drop (suc n) (b ∷ bs) = ap (λ (xs : Bytes). b ∷ xs) (take-drop n bs)

valid-IsTimestamp :
    (ts : ParsedTimestamp) → ts.year ≤ 9999 → validate_ranges ts ≡ true → IsTimestamp ts
unfolding validate_ranges
valid-IsTimestamp ts y h = ground arith

four_places :
    (a b c d : ℕ) → a < 10 → b < 10 → c < 10 → d < 10 → a * 1000 + b * 100 + c * 10 + d ≤ 9999
four_places a b c d h k l m = omega arith

year_in :
    (input : Bytes) (checked : all (λ p. is_digit (at input p)) digit_positions ≡ true)
    → (assemble (d input checked)).year ≤ 9999
year_in input checked =
    four_places (d input checked 0) (d input checked 1) (d input checked 2) (d input checked 3)
      (bound input checked 0 (omega arith)) (bound input checked 1 (omega arith))
      (bound input checked 2 (omega arith)) (bound input checked 3 (omega arith))

in_range-some : (ts u : ParsedTimestamp) → in_range ts ≡ some u → validate_ranges ts ≡ true × ts ≡ u
in_range-some ts u e = elim (Bool-cases (validate_ranges ts)) [
  | inl valid ↦ (valid, some-injective _ _ (rw valid at e))
  | inr refused ↦ absurd (none-ne-some _ (rw refused at e))
]

module _ (input : Bytes) (ts : ParsedTimestamp) where
  checked_fields :
      ltb (length input) timestamp_length ≡ false
      → validate_separators input ≡ true
      → (checked : all (λ p. is_digit (at input p)) digit_positions ≡ true)
      → in_range (assemble (d input checked)) ≡ some ts
      → IsTimestamp ts × (rest : Bytes) × input ≡ timestamp_text ts ++ rest
  checked_fields long marks checked e =
      let (valid, same) = in_range-some (assemble (d input checked)) ts e in
      (
        subst IsTimestamp same
            (valid-IsTimestamp (assemble (d input checked)) (year_in input checked) valid),
        drop 21 input,
        sym (take-drop 21 input)
            ∙ ap (λ bs. bs ++ drop 21 input)
                (take-read_bytes 21 input (ground arith)
                  ∙ spelled input checked marks
                  ∙ ap timestamp_text same),
      )

  accepted :
      parse_timestamp_scalar input ≡ some ts
      → IsTimestamp ts × (rest : Bytes) × input ≡ timestamp_text ts ++ rest
  unfolding parse_timestamp_scalar d
  accepted e = elim (Bool-cases (ltb (length input) timestamp_length)) [
    | inl short ↦ absurd (none-ne-some _ (rw short at e))
    | inr long ↦ elim (Bool-cases (validate_separators input)) [
      | inr missing ↦ absurd (none-ne-some _ (rw (long, missing) at e))
      | inl marks ↦ elim (Bool-cases (all (λ p. is_digit (at input p)) digit_positions)) [
        | inr other ↦ absurd (none-ne-some _ (rw (long, marks, other) at e))
        | inl checked ↦ checked_fields long marks checked (rw (long, marks, checked) at e)
      ]
    ]
  ]

-- The scalar parser reads a timestamp exactly from the texts that begin with its 21 bytes,
-- YYYYMMDD-HH:MM:SS.mmm, and only one whose year has four digits and whose month, day, hour,
-- minute, second and milliseconds are in their ranges.
pub parse_timestamp_scalar_iff :
    (input : Bytes) (ts : ParsedTimestamp)
    → (parse_timestamp_scalar input ≡ some ts)
      ↔ (IsTimestamp ts × (rest : Bytes) × input ≡ timestamp_text ts ++ rest)
parse_timestamp_scalar_iff input ts =
    (accepted input ts, λ h. ap parse_timestamp_scalar h.2 ∙ parse_timestamp_scalar-text ts h.1 h.0)
