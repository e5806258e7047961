-- ===== src/Parser/Timestamp/Agree.antt =====
-- The two parsers of include/nexusfix/parser/timestamp_parser.hpp.
use Prim.Native.Nat.{bit_and, bit_or}
use nexus_fix.Base.{
  ℕ, zero, suc, ◌+◌, ◌-◌, ◌*◌, ◌/◌, ◌%◌, ◌≤◌, ◌<◌, ◌≡◌, refl, sym, ap, ◌∙◌, inl, inr, Bool, true,
  false, not, ◌&&◌, ◌||◌, List, [], ◌∷◌, map, Option, none, some, arith, ltb, leb, ◌==◌,
  if◌then◌else◌, Bytes, length, take, get_or, all, replicate, Bool-cases,
}
use nexus_fix.Parser.FieldView.{is_digit}
use nexus_fix.Parser.Frame.{at}
use nexus_fix.Parser.Vector.{mask_of}
use nexus_fix.Parser.Vector.Scan.{chunk_lengths}
use nexus_fix.Parser.Timestamp.{
  ParsedTimestamp, timestamp_length, digit_positions, assemble, parse_timestamp_scalar, sub_byte,
  greater_byte, zip_bytes, top_bits, Avx2, digit_mask, parse_timestamp_simd, parse_timestamp,
}
use nexus_fix.Parser.Timestamp.Lanes.{selected, masked-selected}

-- The digits of the bytes, and whether each is above 9.
abbrev digits_of : Bytes → Bytes
digits_of bytes = zip_bytes sub_byte bytes (replicate (length bytes) b'0')

abbrev above_nine : Bytes → Bytes
above_nine digits = zip_bytes greater_byte digits (replicate (length digits) 9)

-- Whether every byte that the mask selects is a digit.
digits_selected : Bytes → ℕ → Bool
digits_selected [] mask = true
digits_selected (x ∷ xs) mask =
    (if mask % 2 == 1 then is_digit x else true) && digits_selected xs (mask / 2)

lane :
    (x : ℕ)
    → x < 256
    → (leb 128 (greater_byte (sub_byte x b'0') 9) || leb 128 (sub_byte x b'0')) ≡ not (is_digit x)
lane x h = ground arith

and_not : (b c s : Bool) → not (s && not b || c) ≡ (if s then b else true) && not c
and_not true c true = refl
and_not false c true = refl
and_not b c false = refl

and_left : (a b : Bool) → a && b ≡ true → a ≡ true
and_left a b h = ground arith

and_right : (a b : Bool) → a && b ≡ true → b ≡ true
and_right a b h = ground arith

byte_of : (x : ℕ) (b : Bool) → ltb x 256 && b ≡ true → x < 256
byte_of x b h = ground arith

selected-digits :
    (bytes : Bytes) (mask : ℕ)
    → all (λ x. ltb x 256) bytes ≡ true
    → not (selected (top_bits (above_nine (digits_of bytes))) (top_bits (digits_of bytes)) mask)
      ≡ digits_selected bytes mask
unfolding selected digits_selected all
selected-digits [] mask h = refl
selected-digits (x ∷ xs) mask h =
    let rest = selected-digits xs (mask / 2) (and_right (ltb x 256) _ h) in
    rw (lane x (byte_of x _ h), ← rest) (and_not (is_digit x) _ (mask % 2 == 1))

length-digits_of : (bytes : Bytes) → length (digits_of bytes) ≡ length bytes
length-digits_of [] = refl
length-digits_of (x ∷ xs) = ap suc (length-digits_of xs)

-- The first bytes, one by one.
unfoldable pub read_bytes : ℕ → ℕ → Bytes → Bytes
read_bytes zero i bytes = []
read_bytes (suc n) i bytes = at bytes i ∷ read_bytes n (i + 1) bytes

read_bytes-suc : (n i b : ℕ) (bs : Bytes) → read_bytes n (suc i) (b ∷ bs) ≡ read_bytes n i bs
unfolding read_bytes
read_bytes-suc zero i b bs = refl
read_bytes-suc (suc n) i b bs =
    let next : suc i + 1 ≡ suc (i + 1) = omega arith in
    rw next (ap (λ (xs : Bytes). at bs i ∷ xs) (read_bytes-suc n (i + 1) b bs))

pub take-read_bytes :
    (n : ℕ) (bytes : Bytes) → n ≤ length bytes → take n bytes ≡ read_bytes n 0 bytes
unfolding read_bytes
take-read_bytes zero bytes h = refl
take-read_bytes (suc n) [] h = absurd (omega arith)
take-read_bytes (suc n) (b ∷ bs) h =
    ap (λ (xs : Bytes). b ∷ xs) (take-read_bytes n bs (omega arith) ∙ sym (read_bytes-suc n 0 b bs))

mask-positions :
    (bytes : Bytes)
    → digits_selected (read_bytes 32 0 bytes) digit_mask
      ≡ all (λ p. is_digit (at bytes p)) digit_positions
unfolding digits_selected read_bytes all
mask-positions bytes = refl

all-take :
    (n : ℕ) (bytes : Bytes)
    → all (λ x. ltb x 256) bytes ≡ true
    → all (λ x. ltb x 256) (take n bytes) ≡ true
unfolding all
all-take zero bytes h = refl
all-take (suc n) [] h = refl
all-take (suc n) (x ∷ xs) h =
    let small : ltb x 256 ≡ true = and_left (ltb x 256) _ h in
    rw small (all-take n xs (and_right (ltb x 256) _ h))

-- Where the bytes at some positions are digits, both parsers read the same numbers.
same_digits :
    (f g : ℕ → ℕ) (test : ℕ → Bool) (ps : List ℕ)
    → ((p : ℕ) → test p ≡ true → f p ≡ g p)
    → all test ps ≡ true
    → map f ps ≡ map g ps
unfolding all
same_digits f g test [] h k = refl
same_digits f g test (p ∷ ps) h k =
    ap (λ (d : ℕ). d ∷ map f ps) (h p (and_left (test p) _ k))
    ∙ ap (λ (ds : List ℕ). g p ∷ ds) (same_digits f g test ps h (and_right (test p) _ k))

-- The numbers from the digits in the order of their positions.
abbrev from_digits : List ℕ → ParsedTimestamp
from_digits ds = record {
  year = get_or ds 0 0 * 1000 + get_or ds 1 0 * 100 + get_or ds 2 0 * 10 + get_or ds 3 0;
  month = get_or ds 4 0 * 10 + get_or ds 5 0;
  day = get_or ds 6 0 * 10 + get_or ds 7 0;
  hour = get_or ds 8 0 * 10 + get_or ds 9 0;
  minute = get_or ds 10 0 * 10 + get_or ds 11 0;
  second = get_or ds 12 0 * 10 + get_or ds 13 0;
  millis = get_or ds 14 0 * 100 + get_or ds 15 0 * 10 + get_or ds 16 0;
}

same_length : (ds : Bytes) → length (top_bits (above_nine ds)) ≡ length (top_bits ds)
same_length [] = refl
same_length (d ∷ ds) = ap suc (same_length ds)

digit_value : (x : ℕ) → is_digit x ≡ true → sub_byte x b'0' ≡ x - b'0'
digit_value x h = ground arith

module _ (avx2 : Avx2) (input : Bytes) (enough : 32 ≤ length input) where
  abbrev digits : avx2.Vector
  digits = avx2.sub (avx2.load input) (avx2.broadcast b'0')

  stored : avx2.store digits ≡ digits_of (take 32 input)
  stored =
      avx2.store-sub (avx2.load input) (avx2.broadcast b'0')
      ∙ ap (λ bs. zip_bytes sub_byte bs (avx2.store (avx2.broadcast b'0')))
          (avx2.store-load input enough)
      ∙ ap (zip_bytes sub_byte (take 32 input)) (avx2.store-broadcast b'0')
      ∙ ap (λ n. zip_bytes sub_byte (take 32 input) (replicate n b'0'))
          (sym (chunk_lengths 32 input enough).0)

  stored_above :
      avx2.store (avx2.greater digits (avx2.broadcast 9)) ≡ above_nine (digits_of (take 32 input))
  stored_above =
      avx2.store-greater digits (avx2.broadcast 9)
      ∙ ap (λ bs. zip_bytes greater_byte bs (avx2.store (avx2.broadcast 9))) stored
      ∙ ap (zip_bytes greater_byte (digits_of (take 32 input))) (avx2.store-broadcast 9)
      ∙ ap (λ n. zip_bytes greater_byte (digits_of (take 32 input)) (replicate n 9))
          (sym (length-digits_of (take 32 input) ∙ (chunk_lengths 32 input enough).0))

  mask-eq :
      all (λ x. ltb x 256) input ≡ true
      → (bit_and
            (bit_or (avx2.movemask (avx2.greater digits (avx2.broadcast 9))) (avx2.movemask digits))
            digit_mask
          == 0)
        ≡ all (λ p. is_digit (at input p)) digit_positions
  mask-eq h =
      let bytes : Bytes = take 32 input in
      let above =
        avx2.movemask_lem (avx2.greater digits (avx2.broadcast 9))
        ∙ ap (λ bs. mask_of (top_bits bs)) stored_above in
      let below = avx2.movemask_lem digits ∙ ap (λ bs. mask_of (top_bits bs)) stored in
      rw (above, below)
        (masked-selected (top_bits (above_nine (digits_of bytes))) (top_bits (digits_of bytes))
            digit_mask (same_length (digits_of bytes))
          ∙ selected-digits bytes digit_mask (all-take 32 input h)
          ∙ ap (λ bs. digits_selected bs digit_mask) (take-read_bytes 32 input enough)
          ∙ mask-positions input)

  read : avx2.store digits ≡ digits_of (read_bytes 32 0 input)
  read = stored ∙ ap digits_of (take-read_bytes 32 input enough)

  assembled :
      all (λ p. is_digit (at input p)) digit_positions ≡ true
      → assemble (λ i. get_or (avx2.store digits) i 0) ≡ assemble (λ i. at input i - b'0')
  unfolding read_bytes
  assembled h =
      ap (λ ds. assemble (λ i. get_or ds i 0)) read
      ∙ ap from_digits (
          same_digits (λ p. sub_byte (at input p) b'0') (λ p. at input p - b'0')
            (λ p. is_digit (at input p)) digit_positions (λ p d. digit_value (at input p) d) h)

-- On bytes, the parser with vector instructions and the scalar one give the same timestamp or
-- both refuse, whatever stands behind the timestamp.
pub parse_timestamp-same :
    (avx2 : Option Avx2) (input : Bytes)
    → all (λ x. ltb x 256) input ≡ true
    → parse_timestamp avx2 input ≡ parse_timestamp_scalar input
unfolding parse_timestamp parse_timestamp_simd parse_timestamp_scalar
parse_timestamp-same none input h = refl
parse_timestamp-same (some avx2) input h = elim (Bool-cases (ltb (length input) 32)) [
  | inl short ↦ rw short refl
  | inr long ↦
      let enough : 32 ≤ length input = ground arith in
      let past : ltb (length input) timestamp_length ≡ false = ground arith in
      rw (long, past, mask-eq avx2 input enough h)
        (elim (Bool-cases (all (λ p. is_digit (at input p)) digit_positions)) [
          | inl e ↦ rw (e, assembled avx2 input enough e) refl
          | inr e ↦ rw e refl
        ])
]
