-- ===== src/Types/Fixed/Decimal.antt =====
-- A decimal number is read as it is written.
use nexus_fix.Base.{
  ℕ, zero, suc, ◌+◌, ◌-◌, ◌*◌, ◌/◌, ◌^◌, ◌≤◌, ◌≡◌, refl, sym, ap, ◌∙◌, Bool, true, false, ◌||◌, [],
  ◌∷◌, ◌++◌, Bytes, Option, none, some, ltb, ◌==◌, if◌then◌else◌, ◌≢◌, length, take, arith,
}
use nexus_fix.Base.Words.{pos, negate}
use mathlib.Core.List.{append-nil}
use nexus_fix.Types.Fixed.{
  Scan, scale, largest, digit_round, scan_round, scan, scan_start, scan_result, from_string,
}

-- The number that digits stand for, read on from `n`.
unfoldable pub value_onto : ℕ → Bytes → ℕ
value_onto n [] = n
value_onto n (c ∷ cs) = value_onto (n * 10 + (c - b'0')) cs

abbrev pub value : Bytes → ℕ
value = value_onto 0

abbrev pub AllDigits : Bytes → Type 0
AllDigits [] = Unit {0}
AllDigits (c ∷ cs) = ((b'0' ≤ c) × (c ≤ b'9')) × AllDigits cs

value_onto-le : (n : ℕ) (cs : Bytes) → n ≤ value_onto n cs
unfolding value_onto
value_onto-le n [] = omega arith
value_onto-le n (c ∷ cs) = omega (arith, value_onto-le (n * 10 + (c - b'0')) cs)

take-nil : (n : ℕ) → take {A = ℕ} n [] ≡ []
take-nil zero = refl
take-nil (suc n) = refl

-- A number as text: a sign, digits, and digits behind a point.
abbrev pub unsigned_text : Bytes → Option Bytes → Bytes
unsigned_text ds none = ds
unsigned_text ds (some fs) = ds ++ b'.' ∷ fs

abbrev pub number_text : Bool → Bytes → Option Bytes → Bytes
number_text negative ds fs = if negative then b'-' ∷ unsigned_text ds fs else unsigned_text ds fs

abbrev pub fraction_of : Option Bytes → Bytes
fraction_of none = []
fraction_of (some fs) = fs

-- A text that does not begin with a sign.
abbrev Unsigned : Bytes → Type 0
Unsigned [] = Unit {0}
Unsigned (c ∷ cs) = c ≢ b'-'

unsigned_text-Unsigned :
    (ds : Bytes) (o : Option Bytes) → AllDigits ds → Unsigned (unsigned_text ds o)
unsigned_text-Unsigned [] none d = tt
unsigned_text-Unsigned [] (some fs) d = λ e. omega (arith, e)
unsigned_text-Unsigned (c ∷ ds) none ((lo, hi), d) = λ e. omega (arith, e, lo)
unsigned_text-Unsigned (c ∷ ds) (some fs) ((lo, hi), d) = λ e. omega (arith, e, lo)

module _ (places : ℕ) where
  abbrev whole_scan : ℕ → Scan
  whole_scan n = record {
    integer_part = n;
    fractional_part = 0;
    fractional_digits = 0;
    in_fraction = false;
  }

  abbrev fraction_scan : ℕ → ℕ → ℕ → Scan
  fraction_scan i f n = record {
    integer_part = i;
    fractional_part = f;
    fractional_digits = n;
    in_fraction = true;
  }

  scan_round-digit :
      (s : Scan) (c : ℕ)
      → b'0' ≤ c
      → c ≤ b'9'
      → scan_round places s c ≡ digit_round places s (c - b'0')
  unfolding scan_round
  scan_round-digit s c lo hi =
      let point : (c == b'.') ≡ false = ground arith in
      let digit : (ltb c b'0' || ltb b'9' c) ≡ false = ground arith in rw (point, digit) refl

  -- A digit is taken for one.
  scan-digit :
      (s s' : Scan) (c : ℕ) (cs : Bytes)
      → b'0' ≤ c
      → c ≤ b'9'
      → digit_round places s (c - b'0') ≡ some s'
      → scan places (c ∷ cs) s ≡ scan places cs s'
  unfolding scan
  scan-digit s s' c cs lo hi e =
      ap (λ (o : Option Scan). elim o as (λ _. Scan) [ none ↦ s | some t ↦ scan places cs t ])
        (scan_round-digit s c lo hi ∙ e)

  scan_wholes :
      (ds rest : Bytes) (n : ℕ)
      → AllDigits ds
      → value_onto n ds ≤ largest places
      → scan places (ds ++ rest) (whole_scan n) ≡ scan places rest (whole_scan (value_onto n ds))
  unfolding value_onto digit_round
  scan_wholes [] rest n d h = refl
  scan_wholes (c ∷ ds) rest n ((lo, hi), d) h =
      let m = n * 10 + (c - b'0') in
      let fits : ltb ((largest places - (c - b'0')) / 10) n ≡ false =
        ground (arith, value_onto-le m ds) in
      scan-digit (whole_scan n) (whole_scan m) c (ds ++ rest) lo hi (rw fits refl)
      ∙ scan_wholes ds rest m d h

  scan_fractions :
      (fs : Bytes) (i f n k : ℕ)
      → AllDigits fs
      → n + k ≡ places
      → scan places fs (fraction_scan i f n)
        ≡ fraction_scan i (value_onto f (take k fs)) (n + length (take k fs))
  unfolding value_onto digit_round
  scan_fractions [] i f n zero d e = unfold scan in ap (fraction_scan i f) (omega arith)
  scan_fractions [] i f n (suc k) d e = unfold scan in ap (fraction_scan i f) (omega arith)
  scan_fractions (c ∷ fs) i f n zero ((lo, hi), d) e =
      let over : ltb n places ≡ false = ground arith in
      scan-digit (fraction_scan i f n) (fraction_scan i f n) c fs lo hi (rw over refl)
      ∙ scan_fractions fs i f n zero d e
  scan_fractions (c ∷ fs) i f n (suc k) ((lo, hi), d) e =
      let room : ltb n places ≡ true = ground arith in
      let g = f * 10 + (c - b'0') in
      scan-digit (fraction_scan i f n) (fraction_scan i g (n + 1)) c fs lo hi (rw room refl)
      ∙ scan_fractions fs i g (n + 1) k d (omega arith)
      ∙ ap (fraction_scan i (value_onto g (take k fs))) (omega arith)

  -- What a number is scaled to.
  abbrev pub scaled : Bytes → Bytes → ℕ
  scaled ds fs =
      let kept = take places fs in
      value ds * scale places + value kept * 10 ^ (places - length kept)

  scan_text :
      (ds fs : Bytes)
      → AllDigits ds
      → AllDigits fs
      → value ds ≤ largest places
      → scan_result places (scan places (ds ++ b'.' ∷ fs) (scan_start places)) ≡ scaled ds fs
  unfolding scan_result
  scan_text ds fs d d' h =
      ap (scan_result places) (
        scan_wholes ds (b'.' ∷ fs) 0 d h
        ∙ point
        ∙ scan_fractions fs (value ds) 0 0 places d' (omega arith))
      ∙ ap (λ n. value ds * scale places + value (take places fs) * 10 ^ (places - n)) (omega arith)
    where
      point :
          scan places (b'.' ∷ fs) (whole_scan (value ds))
          ≡ scan places fs (fraction_scan (value ds) 0 0)
      point = unfold scan scan_round in refl

  scan_integer :
      (ds : Bytes)
      → AllDigits ds
      → value ds ≤ largest places
      → scan_result places (scan places ds (scan_start places)) ≡ scaled ds []
  unfolding scan_result value_onto
  scan_integer ds d h =
      ap (scan_result places) (rw append-nil at (scan_wholes ds [] 0 d h))
      ∙ unfold scan in
        ap (λ (kept : Bytes). value ds * scale places + value kept * 10 ^ (places - length kept))
          (sym (take-nil places))

  scan_unsigned :
      (ds : Bytes) (o : Option Bytes)
      → AllDigits ds
      → AllDigits (fraction_of o)
      → value ds ≤ largest places
      → scan_result places (scan places (unsigned_text ds o) (scan_start places))
        ≡ scaled ds (fraction_of o)
  scan_unsigned ds none d d' h = scan_integer ds d h
  scan_unsigned ds (some fs) d d' h = scan_text ds fs d d' h

  from_string-Unsigned :
      (text : Bytes)
      → Unsigned text
      → from_string places text ≡ pos (scan_result places (scan places text (scan_start places)))
  unfolding from_string
  from_string-Unsigned [] u = unfold scan scan_result in ap pos (omega arith)
  from_string-Unsigned (c ∷ text) u =
      let no_sign : (c == b'-') ≡ false = ground arith in rw no_sign refl

  -- A number of digits, with or without a minus sign and digits behind a point, whose whole
  -- part leaves room for the decimal places in an `int64_t`, is read to its value in fixed
  -- point; the digits behind the last decimal place are dropped.
  pub from_string-number_text :
      (negative : Bool) (ds : Bytes) (fs : Option Bytes)
      → AllDigits ds
      → AllDigits (fraction_of fs)
      → value ds ≤ largest places
      → from_string places (number_text negative ds fs) ≡ (
          if negative
          then negate (scaled ds (fraction_of fs))
          else pos (scaled ds (fraction_of fs)))
  from_string-number_text true ds fs d d' h =
      unfold from_string in ap negate (scan_unsigned ds fs d d' h)
  from_string-number_text false ds fs d d' h =
      from_string-Unsigned (unsigned_text ds fs) (unsigned_text-Unsigned ds fs d)
      ∙ ap pos (scan_unsigned ds fs d d' h)
