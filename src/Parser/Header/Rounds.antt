-- ===== src/Parser/Header/Rounds.antt =====
-- The loop of `parse_header` in include/nexusfix/parser/consteval_parser.hpp: its rounds are never
-- cut short.
use nexus_fix.Base.{
  ℕ, zero, suc, ◌+◌, ◌-◌, ◌*◌, ◌<◌, ◌≡◌, refl, inl, inr, Bool, true, false, ◌&&◌, Option, none,
  some, arith, ltb, ◌==◌, Bytes, [], ◌∷◌, length, subst, Bool-cases, Option-cases,
}
use mathlib.Core.Bool.{true≢false}
use nexus_fix.Types.{unterminated_field, no_error, ok, soh}
use nexus_fix.Types.Results.{passes, bind-ok, ok-injective, ParseResult-cases, err≢ok}
use nexus_fix.Parser.FieldView.{
  FieldView, no_field, FieldIterator, TagScan, tag_read, tag_refused, scan_tag, scan_value, next_at,
  next, has_next, position, iterate,
}
use nexus_fix.Parser.Header.{
  HeaderState, start_state, max_header_fields, mark_seen, take_field, header_round, header_loop,
  header_fuel,
}

-- What a scan of a tag leaves, if it read one.
abbrev leaves : ℕ → TagScan → Bool
leaves n (tag_read tag rest) = ltb (length rest) n
leaves n (tag_refused code rest) = true

leaves-suc : (n : ℕ) (r : TagScan) → leaves n r ≡ true → leaves (suc n) r ≡ true
leaves-suc n (tag_read tag rest) h = ground arith
leaves-suc n (tag_refused code rest) h = refl

scan_tag-shorter : (cs : Bytes) (tag : ℕ) → leaves (length cs) (scan_tag tag cs) ≡ true
unfolding scan_tag
scan_tag-shorter [] tag = refl
scan_tag-shorter (c ∷ cs) tag = ground (
  arith,
  leaves-suc (length cs) (scan_tag (tag * 10 + (c - b'0')) cs)
      (scan_tag-shorter cs (tag * 10 + (c - b'0'))),
)

abbrev leaves_value : ℕ → Option (Bytes × Bytes) → Bool
leaves_value n none = true
leaves_value n (some (value, behind)) = ltb (length behind) n

leaves_value-cons :
    (c n : ℕ) (r : Option (Bytes × Bytes))
    → leaves_value n r ≡ true
    → leaves_value (suc n) (elim r as (λ x. Option (Bytes × Bytes)) [
      | none ↦ none
      | some (value, rest) ↦ some (c ∷ value, rest)
    ])
      ≡ true
leaves_value-cons c n none h = refl
leaves_value-cons c n (some (value, rest)) h = ground arith

scan_value-shorter : (cs : Bytes) → leaves_value (length cs) (scan_value cs) ≡ true
unfolding scan_value
scan_value-shorter [] = refl
scan_value-shorter (c ∷ cs) = elim (Bool-cases (c == soh)) [
  | inl ends ↦ rw ends (ground arith)
  | inr goes_on ↦
      rw goes_on (leaves_value-cons c (length cs) (scan_value cs) (scan_value-shorter cs))
]

-- `next_at` behind its scan of the tag.
abbrev after : FieldIterator → TagScan → FieldView × FieldIterator
after it (tag_refused code rest) = (no_field, record it { rest = rest; last_error = code })
after it (tag_read tag rest) = elim (scan_value rest) [
  | none ↦ (no_field, record it { rest = []; last_error = unterminated_field })
  | some (value, behind) ↦
      (record { tag = tag; value = value }, record it { rest = behind; last_error = no_error })
]

after-shorter :
    (it : FieldIterator) (n : ℕ) (r : TagScan)
    → leaves n r ≡ true
    → ((after it r).0.tag == 0) ≡ false
    → length (after it r).1.rest < n
after-shorter it n (tag_refused code rest) h k = ground arith
after-shorter it n (tag_read tag rest) h k = elim (Option-cases (scan_value rest)) [
  | inl unterminated ↦ absurd (true≢false (rw (unterminated, after) at k))
  | inr ((value, behind), read) ↦
      let left : ltb (length behind) (length rest) ≡ true = rw read at (scan_value-shorter rest) in
      rw (read, after) (ground arith)
]

pub next_at-shorter :
    (it : FieldIterator) (bytes : Bytes)
    → ((next_at it bytes).0.tag == 0) ≡ false
    → length (next_at it bytes).1.rest < length bytes
unfolding next_at
next_at-shorter it [] h = ground arith
next_at-shorter it (c ∷ cs) h =
    after-shorter it (length (c ∷ cs)) (scan_tag 0 (c ∷ cs)) (scan_tag-shorter (c ∷ cs) 0) h

round-shorter :
    (s s' : HeaderState) (it it' : FieldIterator)
    → header_round s it ≡ ok (s', it')
    → length it'.rest < length it.rest
unfolding header_round
round-shorter s s' it it' e =
    let f = (next it).0 in
    let (valid, e) = passes (f.tag == 0) _ 0 (position (next it).1) _ (s', it') e in
    let (marked, _, e) = bind-ok (mark_seen s f.tag) _ (s', it') e in
    let (taken, _, e) = bind-ok (take_field marked f (position (next it).1)) _ (s', it') e in
    subst (λ (p : HeaderState × FieldIterator). length p.1.rest < length it.rest)
      (ok-injective _ (s', it') e) (next_at-shorter it it.rest valid)

-- The test of the loop.
abbrev goes_on : HeaderState → FieldIterator → Bool
goes_on s it = has_next it && ltb s.fields_parsed max_header_fields && s.body_start == 0

loop-done :
    (fuel : ℕ) (s s' : HeaderState) (it it' : FieldIterator)
    → length it.rest < fuel
    → header_loop fuel s it ≡ ok (s', it')
    → goes_on s' it' ≡ false
unfolding header_loop
loop-done zero s s' it it' h e = absurd (omega arith)
loop-done (suc fuel) s s' it it' h e = elim (Bool-cases (goes_on s it)) [
  | inr ended ↦
      subst (λ (p : HeaderState × FieldIterator). goes_on p.0 p.1 ≡ false)
        (ok-injective (s, it) (s', it') (rw (ended, header_loop) at e)) ended
  | inl more ↦ elim (ParseResult-cases (header_round s it)) [
    | inr (code, tag, offset, failed) ↦ absurd (
        err≢ok code tag offset (s', it')
          (rw (failed, header_loop) at (rw (more, header_loop) at e)))
    | inl ((t, jt), round) ↦
        let shorter = round-shorter s t it jt round in
        loop-done fuel t s' jt it' (omega arith)
          (rw (round, header_loop) at (rw (more, header_loop) at e))
  ]
]

-- When the loop of `parse_header` ends without an error, its own test has failed: the bytes are
-- used up, enough header fields are read, or a body field is reached. It never ends for want of
-- fuel.
pub header_loop-done :
    (bytes : Bytes) (s : HeaderState) (it : FieldIterator)
    → header_loop (header_fuel bytes) start_state (iterate bytes) ≡ ok (s, it)
    → (has_next it && ltb s.fields_parsed max_header_fields && s.body_start == 0) ≡ false
header_loop-done bytes s it e =
    loop-done (header_fuel bytes) start_state s (iterate bytes) it (omega arith) e
