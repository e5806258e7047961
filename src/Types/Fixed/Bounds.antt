-- ===== src/Types/Fixed/Bounds.antt =====
-- The number that is read of any text fits an `int64_t`, and so does every intermediate value.
use nexus_fix.Base.{
  ℕ, suc, ◌+◌, ◌-◌, ◌*◌, ◌/◌, ◌^◌, ◌≤◌, ◌<◌, ◌≡◌, ap, ◌∙◌, ◌||◌, [], ◌∷◌, Bytes, Option, none, some,
  ltb, ◌==◌, Bool-cases, inl, inr, arith,
}
use nexus_fix.Base.Words.{max_i64, negate, abs}
use nexus_fix.Base.Masks.{pow-add}
use native.Mathlib.Nat.{pow-suc, one-le-pow, mul-le-mul_right, add-mul, div-mul-le_self}
use nexus_fix.Types.Fixed.{
  Scan, scale, digit_round, largest, scan_round, scan, scan_start, scan_result, from_string,
}

abs-negate : (n : ℕ) → abs (negate n) ≡ n
abs-negate n = ground arith

module _ (places : ℕ) where
  -- What holds before every round.
  record InRange (integer_part fractional_part fractional_digits : ℕ) : Type 0 where
    whole : integer_part ≤ largest places
    count : fractional_digits ≤ places
    part : fractional_part < 10 ^ fractional_digits

  abbrev IsInRange : Scan → Type 0
  IsInRange s = InRange s.integer_part s.fractional_part s.fractional_digits

  one_more : (n : ℕ) → n + 1 ≡ suc n
  one_more n = omega arith

  -- A digit behind the point, and a digit before it.
  fraction_digit :
      (i f n d : ℕ) → d < 10 → n < places → InRange i f n → InRange i (f * 10 + d) (n + 1)
  fraction_digit i f n d hd hp r = record {
    whole = r.whole;
    count = omega arith;
    part = omega (arith, r.part, pow-suc 10 n, ap (λ m. 10 ^ m) (one_more n));
  }

  whole_digit :
      (i f n d : ℕ)
      → d < 10
      → 9 ≤ largest places
      → i ≤ (largest places - d) / 10
      → InRange i f n
      → InRange (i * 10 + d) f n
  whole_digit i f n d hd hl h r = record {
    whole = omega (arith, h, hl, hd);
    count = r.count;
    part = r.part;
  }

  -- A round that does not break off the loop keeps the range.
  abbrev Keeps : Option Scan → Type 0
  Keeps none = Unit {0}
  Keeps (some s) = IsInRange s

  digit_round-Keeps :
      (s : Scan) (d : ℕ)
      → d < 10
      → 9 ≤ largest places
      → IsInRange s
      → Keeps (digit_round places s d)
  unfolding digit_round
  digit_round-Keeps s d hd hl r = elim (Bool-cases s.in_fraction) [
    | inl e ↦ rw e (elim (Bool-cases (ltb s.fractional_digits places)) [
      | inl e' ↦ rw e' (
          fraction_digit s.integer_part s.fractional_part s.fractional_digits d hd (ground arith) r)
      | inr e' ↦ rw e' r
    ])
    | inr e ↦ rw e (elim (Bool-cases (ltb ((largest places - d) / 10) s.integer_part)) [
      | inl e' ↦ rw e' tt
      | inr e' ↦ rw e' (
          whole_digit s.integer_part s.fractional_part s.fractional_digits d hd hl (ground arith) r)
    ])
  ]

  scan_round-Keeps :
      (s : Scan) (c : ℕ) → 9 ≤ largest places → IsInRange s → Keeps (scan_round places s c)
  unfolding scan_round
  scan_round-Keeps s c hl r = elim (Bool-cases (c == b'.')) [
    | inl e ↦ rw e (record { whole = r.whole; count = r.count; part = r.part })
    | inr e ↦ rw e (elim (Bool-cases (ltb c b'0' || ltb b'9' c)) [
      | inl e' ↦ rw e' tt
      | inr e' ↦ rw e' (digit_round-Keeps s (c - b'0') (ground arith) hl r)
    ])
  ]

  scan-InRange :
      (sv : Bytes) (s : Scan) → 9 ≤ largest places → IsInRange s → IsInRange (scan places sv s)
  unfolding scan
  scan-InRange [] s hl r = r
  scan-InRange (c ∷ sv) s hl r =
      (elim (scan_round places s c)
          as (λ o.
            Keeps o
            → IsInRange (elim o as (λ _. Scan) [ none ↦ s | some s' ↦ scan places sv s' ])) [
              | none ↦ λ k. r
              | some s' ↦ λ k. scan-InRange sv s' hl k
            ])
        (scan_round-Keeps s c hl r)

  scan_result-le :
      (s : Scan) → scale places ≤ max_i64 → IsInRange s → scan_result places s ≤ max_i64
  unfolding scan_result
  scan_result-le s h r =
      let rest = places - s.fractional_digits in
      let split : scale places ≡ 10 ^ s.fractional_digits * 10 ^ rest =
        ap (λ n. 10 ^ n) (omega (arith, r.count)) ∙ pow-add 10 s.fractional_digits rest in
      let above : (s.fractional_part + 1) * 10 ^ rest ≤ 10 ^ s.fractional_digits * 10 ^ rest =
        mul-le-mul_right (10 ^ rest) (omega (arith, r.part)) in
      let wholes : s.integer_part * scale places ≤ largest places * scale places =
        mul-le-mul_right (scale places) r.whole in
      omega (
        arith,
        split,
        above,
        wholes,
        add-mul s.fractional_part 1 (10 ^ rest),
        one-le-pow rest 10 (omega arith),
        div-mul-le_self (max_i64 - (scale places - 1)) (scale places),
        h,
      )

  -- With decimal places that leave room for a digit before the point, no text is read to a
  -- number whose size outgrows an `int64_t`.
  pub from_string-le :
      (sv : Bytes)
      → scale places ≤ max_i64
      → 9 ≤ largest places
      → abs (from_string places sv) ≤ max_i64
  unfolding from_string
  from_string-le [] h hl = omega arith
  from_string-le (c ∷ sv) h hl =
      let start : InRange 0 0 0 = record {
        whole = omega arith;
        count = omega arith;
        part = omega arith;
      } in
      let negative =
        scan_result-le (scan places sv (scan_start places)) h
          (scan-InRange sv (scan_start places) hl start) in
      let positive =
        scan_result-le (scan places (c ∷ sv) (scan_start places)) h
          (scan-InRange (c ∷ sv) (scan_start places) hl start) in
      elim (Bool-cases (c == b'-')) [
        | inl e ↦ rw (e, abs-negate) negative
        | inr e ↦ rw e (omega (arith, positive))
      ]
