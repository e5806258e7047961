-- ===== src/Messages/Assembler/Checksum.antt =====
-- A finished message passes the parser's test of its checksum.
use nexus_fix.Base.{
  ℕ, zero, suc, ◌+◌, ◌-◌, ◌/◌, ◌%◌, ◌≤◌, ◌<◌, ◌≡◌, refl, sym, ap, ◌∙◌, true, false, [], ◌∷◌, ◌++◌,
  leb, ltb, arith, if◌then◌else◌, Bytes, length, take, length-append, length-set, get_or-before,
  get_or-behind, get_or-set, take-length,
}
use mathlib.Core.List.{append_assoc}
use nexus_fix.Types.{soh, equals, calculate_checksum, format_checksum, ok}
use nexus_fix.Types.Tag
use nexus_fix.Parser.Frame.{at, trailer_at, find_checksum, checksum_matches, validate_checksum}
use nexus_fix.Messages.Assembler.Appended.{append_field-Appended, append_field-bound, encode}
use nexus_fix.Messages.Assembler.{
  MessageAssembler, max_message_size, write_length, finish, to_digits, digits_loop, reverse_onto,
  append_field,
}

length-write_length :
    (n : ℕ) (buffer : Bytes) (len_pos l : ℕ)
    → length (write_length n buffer len_pos l) ≡ length buffer
unfolding write_length
length-write_length zero buffer len_pos l = refl
length-write_length (suc n) buffer len_pos l =
    length-write_length n _ len_pos (l / 10) ∙ length-set buffer (len_pos + n) (b'0' + l % 10)

-- The bytes behind the placeholder stay.
write_length-behind :
    (n : ℕ) (buffer : Bytes) (len_pos l i : ℕ)
    → len_pos + n ≤ i
    → at (write_length n buffer len_pos l) i ≡ at buffer i
unfolding write_length
write_length-behind zero buffer len_pos l i h = refl
write_length-behind (suc n) buffer len_pos l i h =
    write_length-behind n _ len_pos (l / 10) i (omega arith)
    ∙ get_or-set buffer (len_pos + n) i (b'0' + l % 10) 0 (omega arith)

checksum-bound : (bytes : Bytes) → calculate_checksum bytes < 256
unfolding calculate_checksum
checksum-bound bytes = omega arith

-- `10=`, three digits and SOH.
abbrev pub trailer : ℕ → Bytes
trailer sum = b'1' ∷ b'0' ∷ equals ∷ (format_checksum sum ++ soh ∷ [])

pub encode-trailer : (sum : ℕ) → encode Tag.check_sum (format_checksum sum) ≡ trailer sum
unfolding to_digits digits_loop reverse_onto format_checksum
encode-trailer sum = refl

module _ (body : Bytes) (sum : ℕ) where
  abbrev pub message : Bytes
  message = body ++ trailer sum

  pub length-message : length message ≡ length body + 7
  unfolding format_checksum
  length-message = omega (arith, length-append body (trailer sum))

  pub behind : (n i : ℕ) → n ≡ length body + i → at message n ≡ at (trailer sum) i
  behind n i e = get_or-behind body (trailer sum) n i 0 e

  pub trailer_at-end :
      2 ≤ length body
      → at body (length body - 1) ≡ soh
      → trailer_at message (length body - 1) ≡ true
  unfolding trailer_at format_checksum
  trailer_at-end l e =
      let n = length body - 1 in
      ground (
        arith,
        e,
        get_or-before body (trailer sum) n 0 (omega arith),
        behind (n + 1) 0 (omega arith),
        behind (n + 2) 1 (omega arith),
        behind (n + 3) 2 (omega arith),
      )

  trailer_at-past : trailer_at message (length body) ≡ false
  unfolding trailer_at format_checksum
  trailer_at-past = ground (arith, behind (length body) 0 (omega arith))

  checksum_matches-trailer : sum < 256 → checksum_matches sum message (length body + 3) ≡ true
  unfolding format_checksum
  checksum_matches-trailer l =
      let n = length body + 3 in
      ground
        (arith, behind n 3 refl, behind (n + 1) 4 (omega arith), behind (n + 2) 5 (omega arith))

  found :
      (d k : ℕ)
      → length body ≡ suc (suc k)
      → at body (length body - 1) ≡ soh
      → find_checksum message d (suc (suc k)) ≡ length body + 3
  unfolding find_checksum
  found d k e last =
      let past : trailer_at message (suc (suc k)) ≡ false =
        ap (trailer_at message) (sym e) ∙ trailer_at-past in
      let end : trailer_at message (suc k) ≡ true =
        ap (trailer_at message) (omega (arith, e)) ∙ trailer_at-end (omega (arith, e)) last in
      rw past (rw end (omega (arith, e)))

  validate_checksum-message :
      2 ≤ length body
      → at body (length body - 1) ≡ soh
      → sum ≡ calculate_checksum body
      → validate_checksum message ≡ ok tt
  unfolding validate_checksum
  validate_checksum-message l last e =
      let k = length body - 2 in
      let at_three : find_checksum message (length message) (length message - 7) ≡ length body + 3 =
        ap (find_checksum message (length message)) (omega (arith, length-message))
        ∙ found (length message) k (omega arith) last in
      let summed : calculate_checksum (take (length body + 3 - 3) message) ≡ sum =
        ap (λ n. calculate_checksum (take n message)) (omega arith)
        ∙ ap calculate_checksum (take-length body (trailer sum))
        ∙ sym e in
      let short : ltb (length message) 7 ≡ false = ground (arith, length-message) in
      let inside : leb (length message - 3) (length body + 3) ≡ false =
        ground (arith, length-message) in
      let small : sum < 256 = rw e (checksum-bound body) in
      rw (short, at_three) (rw (inside, summed) (rw (checksum_matches-trailer small) refl))

-- The assembler holds the placeholder with its SOH, and its last byte is an SOH.
pub record IsOpen (a : MessageAssembler) : Type 0 where
  pub placed : a.body_length_pos + 8 < length a.buffer
  pub ended : at a.buffer (length a.buffer - 1) ≡ soh

-- A buffer that ends with a field ends with SOH.
field-ended :
    (xs : Bytes) (tag : ℕ) (value : Bytes)
    → at (xs ++ encode tag value) (length (xs ++ encode tag value) - 1) ≡ soh
field-ended xs tag value =
    let front = xs ++ (to_digits tag ++ equals ∷ value) in
    let split : xs ++ encode tag value ≡ front ++ soh ∷ [] =
      ap (λ z. xs ++ z) (sym (append_assoc (to_digits tag) (equals ∷ value) (soh ∷ [])))
      ∙ sym (append_assoc xs (to_digits tag ++ equals ∷ value) (soh ∷ [])) in
    rw split (
      get_or-behind front (soh ∷ []) (length (front ++ soh ∷ []) - 1) 0 0
        (omega (arith, length-append front (soh ∷ []))))

pub append_field-IsOpen :
    (a : MessageAssembler) (tag : ℕ) (value : Bytes)
    → (append_field a tag value).truncated ≡ false
    → a.body_length_pos + 8 < length a.buffer
    → IsOpen (append_field a tag value)
append_field-IsOpen a tag value h p =
    let done = append_field-Appended a tag value h in
    record {
      placed =
          rw (done.buffer, done.body_length_pos)
            (omega (arith, length-append a.buffer (encode tag value)));
      ended = rw done.buffer (field-ended a.buffer tag value);
    }

-- The buffer with the body length written.
abbrev pub sized : MessageAssembler → Bytes
sized a =
    let body_length = length a.buffer - a.body_start in
    if leb (a.body_length_pos + 8) max_message_size
    then write_length 6 a.buffer (a.body_length_pos + 2) body_length
    else a.buffer

length-sized : (a : MessageAssembler) → length (sized a) ≡ length a.buffer
length-sized a =
    ground (
      arith,
      length-write_length 6 a.buffer (a.body_length_pos + 2) (length a.buffer - a.body_start),
    )

sized-ended : (a : MessageAssembler) → IsOpen a → at (sized a) (length (sized a) - 1) ≡ soh
sized-ended a v =
    ap (λ n. at (sized a) (n - 1)) (length-sized a)
    ∙ ground (
      arith,
      v.ended,
      write_length-behind 6 a.buffer (a.body_length_pos + 2) (length a.buffer - a.body_start)
          (length a.buffer - 1) (omega (arith, v.placed)),
    )

-- Whatever fields were appended, the finished message, if nothing of it was dropped, ends with the
-- checksum that the parser computes.
pub finish-checksum :
    (a : MessageAssembler)
    → IsOpen a
    → (finish a).truncated ≡ false
    → validate_checksum (finish a).buffer ≡ ok tt
unfolding finish
finish-checksum a v h =
    let sum = calculate_checksum (sized a) in
    let done =
      append_field-Appended (record a { buffer = sized a }) Tag.check_sum (format_checksum sum) h in
    rw (done.buffer ∙ ap (λ z. sized a ++ z) (encode-trailer sum)) (
      validate_checksum-message (sized a) sum (omega (arith, v.placed, length-sized a))
        (sized-ended a v) refl)

pub finish-intact : (a : MessageAssembler) → (finish a).truncated ≡ false → a.truncated ≡ false
unfolding finish
finish-intact a h =
    let sum = calculate_checksum (sized a) in
    (append_field-Appended (record a { buffer = sized a }) Tag.check_sum (format_checksum sum)
      h).intact

pub finish-bound :
    (a : MessageAssembler)
    → length a.buffer ≤ max_message_size
    → length (finish a).buffer ≤ max_message_size
unfolding finish
finish-bound a h =
    append_field-bound (record a { buffer = sized a }) Tag.check_sum _
      (omega (arith, h, length-sized a))
