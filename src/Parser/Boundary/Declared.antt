-- ===== src/Parser/Boundary/Declared.antt =====
-- What find_message_boundary in include/nexusfix/parser/simd_scanner.hpp takes for the declared body
-- length.
use nexus_fix.Base.{
  ℕ, zero, suc, ◌+◌, ◌-◌, ◌*◌, ◌%◌, ◌^◌, ◌≤◌, ◌<◌, ◌≡◌, refl, sym, ◌∙◌, inl, inr, ◌⊎◌, Bool, true,
  false, not, ◌&&◌, ◌||◌, Option, none, some, arith, ltb, ◌==◌, Bytes, length, Bool-cases,
}
use nexus_fix.Base.Words.{wrap64, sub64}
use nexus_fix.Types.{soh}
use nexus_fix.Parser.FieldView.{is_digit}
use nexus_fix.Parser.Frame.{at}
use nexus_fix.Parser.Boundary.{length_agrees, read_length, length_at, find_length}

-- The subtraction on `size_t` values, read backwards.
length_sum :
    (n body_start trailer d : ℕ)
    → (n == wrap64 (sub64 trailer body_start + 1)) ≡ true
    → body_start ≤ trailer + 65536
    → n % 2 ^ 64 ≡ d % 2 ^ 64
    → (body_start + d) % 2 ^ 64 ≡ (trailer + 1) % 2 ^ 64
length_sum n body_start trailer d e h k =
    let difference = sub64 trailer body_start in
    let same : n ≡ wrap64 (difference + 1) = ground arith in
    let back : (body_start + difference) % 2 ^ 64 ≡ trailer % 2 ^ 64 = omega (arith, h) in
    omega (arith, same, back, k)

module _ (bytes : Bytes) where
  -- Whether the `m` bytes from `k` on are digits, and the number that they add to `n`.
  abbrev pub digits_at : ℕ → ℕ → Bool
  digits_at k zero = true
  digits_at k (suc m) = is_digit (at bytes k) && digits_at (k + 1) m

  abbrev pub decimal_at : ℕ → ℕ → ℕ → ℕ
  decimal_at n k zero = n
  decimal_at n k (suc m) = decimal_at (n * 10 + (at bytes k - b'0')) (k + 1) m

  abbrev pub is_length : ℕ → Bool
  is_length j = at bytes j == soh && (at bytes (j + 1) == b'9' && at bytes (j + 2) == b'=')

  -- Whether no BodyLength begins at the `n` indices from `j` on.
  abbrev pub no_length : ℕ → ℕ → Bool
  no_length j zero = true
  no_length j (suc n) = not (is_length j) && no_length (j + 1) n

  decimal_at-mod :
      (a b k m : ℕ)
      → a % 2 ^ 64 ≡ b % 2 ^ 64
      → decimal_at a k m % 2 ^ 64 ≡ decimal_at b k m % 2 ^ 64
  decimal_at-mod a b k zero h = h
  decimal_at-mod a b k (suc m) h =
      decimal_at-mod (a * 10 + (at bytes k - b'0')) (b * 10 + (at bytes k - b'0')) (k + 1) m
        (omega (arith, h))

  -- What the loop over the digits reads: all digits in a row, modulo 2^64.
  record IsRead (last k n : ℕ) (has : Bool) (r : ℕ × Bool × ℕ) (m : ℕ) : Type 0 where
    place : r.2 ≡ k + m
    digits : digits_at k m ≡ true
    number : r.0 % 2 ^ 64 ≡ decimal_at n k m % 2 ^ 64
    small : n < 2 ^ 64 → r.0 < 2 ^ 64
    some_digit : r.1 ≡ (has || ltb 0 m)
    stopped : (ltb (k + m) last && is_digit (at bytes (k + m))) ≡ false

  read_length-IsRead :
      (fuel last k n : ℕ) (has : Bool)
      → last ≤ k + fuel
      → (m : ℕ) × IsRead last k n has (read_length bytes fuel last k n has) m
  unfolding read_length
  read_length-IsRead zero last k n has h = (
    0,
    record {
      place = omega arith;
      digits = refl;
      number = refl;
      small = λ b. b;
      some_digit = ground arith;
      stopped = ground arith;
    },
  )
  read_length-IsRead (suc fuel) last k n has h =
      elim (Bool-cases (ltb k last && is_digit (at bytes k))) [
        | inr ended ↦
            let here : k + 0 ≡ k = omega arith in
            (
              0,
              rw ended (record {
                place = sym here;
                digits = refl;
                number = refl;
                small = λ b. b;
                some_digit = ground arith;
                stopped = rw here ended;
              }),
            )
        | inl more ↦
            let digit : is_digit (at bytes k) ≡ true = ground arith in
            let wrapped = wrap64 (n * 10 + (at bytes k - b'0')) in
            let (m, v) = read_length-IsRead fuel last (k + 1) wrapped true (omega (arith, h)) in
            let next : k + suc m ≡ k + 1 + m = omega arith in
            let same =
              decimal_at-mod wrapped (n * 10 + (at bytes k - b'0')) (k + 1) m (omega arith) in
            (
              suc m,
              rw more (record {
                place = v.place ∙ sym next;
                digits = rw digit v.digits;
                number = v.number ∙ same;
                small = λ b. v.small (omega arith);
                some_digit = ground (arith, v.some_digit);
                stopped = rw next v.stopped;
              }),
            )
      ]

  -- The first BodyLength behind `start` and before `last`, and how many digits it has.
  pub record IsFirstLength (start last field count : ℕ) : Type 0 where
    pub later : start ≤ field
    pub before : field + 3 < last
    pub named : is_length field ≡ true
    pub first : no_length start (field - start) ≡ true
    pub digits : digits_at (field + 3) count ≡ true
    pub stopped : (ltb (field + 3 + count) last && is_digit (at bytes (field + 3 + count))) ≡ false

  -- How a body that ends with the SOH at `trailer` agrees with the BodyLength of the message at `start`:
  -- there is none before `last`; the first one is not a row of digits with an SOH behind it; or the
  -- number of bytes from the byte behind that SOH on is the number of the digits, modulo 2^64.
  pub data LengthAgrees (start last trailer : ℕ) : Type 0 where
    absent : no_length start (last - 3 - start) ≡ true → LengthAgrees start last trailer
    malformed :
        (field count : ℕ)
        → IsFirstLength start last field count
        → (ltb 0 count && (ltb (field + 3 + count) last && at bytes (field + 3 + count) == soh))
          ≡ false
        → LengthAgrees start last trailer
    declared :
        (field count : ℕ)
        → IsFirstLength start last field count
        → 0 < count
        → at bytes (field + 3 + count) ≡ soh
        → (field + 4 + count + decimal_at 0 (field + 3) count) % 2 ^ 64 ≡ (trailer + 1) % 2 ^ 64
        → LengthAgrees start last trailer

  record IsFirst (start last field : ℕ) (r : Option (ℕ × ℕ)) : Type 0 where
    later : start ≤ field
    before : field + 3 < last
    named : is_length field ≡ true
    first : no_length start (field - start) ≡ true
    same : r ≡ length_at bytes last field

  find_length-cases :
      (fuel last j : ℕ)
      → last ≤ j + fuel + 3
      → ((find_length bytes fuel last j ≡ none) × (no_length j (last - 3 - j) ≡ true))
        ⊎ ((field : ℕ) × IsFirst j last field (find_length bytes fuel last j))
  unfolding find_length
  find_length-cases zero last j h =
      let over : last - 3 - j ≡ 0 = omega arith in inl (refl, rw over refl)
  find_length-cases (suc fuel) last j h = elim (Bool-cases (ltb (j + 3) last)) [
    | inr ended ↦ let over : last - 3 - j ≡ 0 = ground arith in inl (rw ended refl, rw over refl)
    | inl inside ↦ elim (Bool-cases (is_length j)) [
      | inl here ↦
          let none_passed : j - j ≡ 0 = omega arith in
          inr (
            j,
            record {
              later = omega arith;
              before = ground arith;
              named = here;
              first = rw none_passed refl;
              same = rw inside (rw here refl);
            },
          )
      | inr further ↦ elim (find_length-cases fuel last (j + 1) (omega (arith, h))) [
        | inl (nothing, passed) ↦
            let more : last - 3 - j ≡ suc (last - 3 - (j + 1)) = ground arith in
            inl (rw inside (rw further nothing), rw more (rw further passed))
        | inr (field, v) ↦
            let more : field - j ≡ suc (field - (j + 1)) = omega (arith, v.later) in
            inr (
              field,
              record {
                later = omega (arith, v.later);
                before = v.before;
                named = v.named;
                first = rw more (rw further v.first);
                same = rw inside (rw further v.same);
              },
            )
      ]
    ]
  ]

  pub length_agrees-LengthAgrees :
      (start last trailer : ℕ)
      → last ≤ length bytes
      → last ≤ trailer + 65536
      → length_agrees (find_length bytes (length bytes) last start) trailer ≡ true
      → LengthAgrees start last trailer
  unfolding length_at
  length_agrees-LengthAgrees start last trailer h w e =
      elim (find_length-cases (length bytes) last start (omega arith)) [
        | inl (nothing, passed) ↦ LengthAgrees.absent passed
        | inr (field, f) ↦
            let (m, v) =
              read_length-IsRead (length bytes) last (field + 3) 0 false (omega (arith, h)) in
            let found = read_length bytes (length bytes) last (field + 3) 0 false in
            let first : IsFirstLength start last field m = record {
              later = f.later;
              before = f.before;
              named = f.named;
              first = f.first;
              digits = v.digits;
              stopped = v.stopped;
            } in
            let place : found.2 ≡ field + 3 + m = v.place in
            let behind : found.2 + 1 ≡ field + 4 + m = omega (arith, place) in
            elim (Bool-cases (found.1 && (ltb found.2 last && at bytes found.2 == soh))) [
              | inr unended ↦
                  LengthAgrees.malformed field m first (rw (v.some_digit, place) at unended)
              | inl ended ↦
                  let e' : length_agrees (some (found.0, field + 4 + m)) trailer ≡ true =
                    rw (ended, behind) at (rw f.same at e) in
                  let ended' : (ltb 0 m
                        && (ltb (field + 3 + m) last && at bytes (field + 3 + m) == soh))
                      ≡ true =
                    rw (v.some_digit, place) at ended in
                  LengthAgrees.declared field m first (ground arith) (ground arith) (
                    length_sum (found.0) (field + 4 + m) trailer (decimal_at 0 (field + 3) m) e'
                      (ground arith) v.number)
            ]
      ]
