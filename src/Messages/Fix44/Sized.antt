-- ===== src/Messages/Fix44/Sized.antt =====
-- The body length that the assembler of include/nexusfix/messages/common/trailer.hpp writes passes the
-- test of include/nexusfix/parser/consteval_parser.hpp.
use nexus_fix.Base.{
  ℕ, zero, suc, ◌+◌, ◌-◌, ◌≤◌, ◌<◌, ◌≡◌, refl, sym, ap, ◌∙◌, true, false, [], ◌∷◌, ◌++◌, arith,
  some, ltb, ◌==◌, Bytes, length, all, length-append, get_or-behind,
}
use mathlib.Core.List.{append_assoc}
use nexus_fix.Base.Words.{pos}
use nexus_fix.Types.{soh, equals, format_checksum, ok}
use nexus_fix.Types.Tag
use nexus_fix.Parser.Frame.{
  at, trailer_at, find_soh, find_body_start, find_body_end, validate_body_length,
}
use nexus_fix.Messages.Assembler.{digits_loop, reverse_onto, to_digits}
use nexus_fix.Messages.Assembler.Appended.{encode}
use nexus_fix.Messages.Assembler.Checksum.{trailer, message, length-message, behind, trailer_at-end}
use nexus_fix.Messages.Fix44.Fields.{Fields}
use nexus_fix.Messages.Fix44.Written.{render, six_digits, framed}
use nexus_fix.Messages.Fix44.Reads.{IsPlain}

-- The bytes from BodyLength on.
abbrev length_field : ℕ → Bytes → Bytes
length_field n rest = b'9' ∷ equals ∷ (six_digits n ++ soh ∷ rest)

find_soh-six_digits :
    (n j : ℕ) (rest : Bytes) → find_soh (six_digits n ++ soh ∷ rest) j ≡ some (j + 6)
unfolding find_soh
find_soh-six_digits n j rest = ground arith

find_body_start-plain :
    (text rest : Bytes) (n i : ℕ)
    → IsPlain text
    → find_body_start (text ++ soh ∷ length_field n rest) i ≡ i + length text + 10
unfolding find_body_start all
find_body_start-plain [] rest n i h = rw (find_soh-six_digits n (i + 3) rest) (omega arith)
find_body_start-plain (c ∷ cs) rest n i h =
    let inside : (c == soh) ≡ false = ground arith in
    rw (inside, find_body_start-plain cs rest n (i + 1) (ground arith)) (omega arith)

-- The loop passes every index that holds no trailer.
find_body_end-passes :
    (bytes : Bytes) (start k i : ℕ)
    → start < i
    → ((j : ℕ) → i ≤ j → j < k + i → trailer_at bytes j ≡ false)
    → find_body_end bytes start (k + i) ≡ find_body_end bytes start i
unfolding find_body_end
find_body_end-passes bytes start zero i h p = ap (find_body_end bytes start) (omega arith)
find_body_end-passes bytes start (suc k) i h p =
    let next : suc k + i ≡ suc (k + i) = omega arith in
    let inside : ltb start (suc (k + i)) ≡ true = ground arith in
    rw next (
      rw (inside, p (k + i) (omega arith) (omega arith))
        (find_body_end-passes bytes start k i h (λ j a b. p j a (omega arith))))

trailer_at-inside :
    (body : Bytes) (sum j : ℕ)
    → length body ≤ j
    → j < 6 + length body
    → trailer_at (message body sum) j ≡ false
unfolding trailer_at format_checksum
trailer_at-inside body sum j h k =
    let n = length body in
    let i = j - n in
    ground (
      arith,
      behind body sum (n + 0) 0 refl,
      behind body sum (n + 1) 1 refl,
      behind body sum (n + 2) 2 refl,
      behind body sum (n + 3) 3 refl,
      behind body sum (n + 4) 4 refl,
      behind body sum (n + 5) 5 refl,
    )

-- The body ends in front of the trailer.
find_body_end-message :
    (body : Bytes) (sum start : ℕ)
    → start < length body
    → 2 ≤ length body
    → at body (length body - 1) ≡ soh
    → find_body_end (message body sum) start (length (message body sum) - 1) ≡ length body - 1
unfolding find_body_end
find_body_end-message body sum start h l last =
    let bytes = message body sum in
    let n : suc (length body - 1) ≡ length body = omega arith in
    let inside : ltb start (suc (length body - 1)) ≡ true = ground arith in
    let end = trailer_at-end body sum l last in
    let there : find_body_end bytes start (suc (length body - 1)) ≡ length body - 1 =
      rw (inside, end) refl in
    ap (find_body_end bytes start) (omega (arith, length-message body sum))
    ∙ find_body_end-passes bytes start 6 (length body) h (trailer_at-inside body sum)
    ∙ ap (find_body_end bytes start) (sym n)
    ∙ there

ended :
    (xs : Bytes) (fs : Fields)
    → at (xs ++ soh ∷ render fs) (length (xs ++ soh ∷ render fs) - 1) ≡ soh
ended xs [] = get_or-behind xs (soh ∷ []) _ 0 0 (omega (arith, length-append xs (soh ∷ [])))
ended xs ((tag, value) ∷ fs) =
    let text = to_digits tag ++ equals ∷ value in
    let split : xs ++ soh ∷ (encode tag value ++ render fs)
        ≡ (xs ++ soh ∷ text) ++ soh ∷ render fs =
      ap (λ z. xs ++ soh ∷ (z ++ render fs))
        (sym (append_assoc (to_digits tag) (equals ∷ value) (soh ∷ [])))
      ∙ ap (λ z. xs ++ soh ∷ z) (append_assoc text (soh ∷ []) (render fs))
      ∙ sym (append_assoc xs (soh ∷ text) (soh ∷ render fs)) in
    rw split (ended (xs ++ soh ∷ text) fs)

module _ (begin_string : Bytes) (fs : Fields) where
  abbrev body_length : ℕ
  body_length = length (render fs)

  -- The bytes behind BodyLength, in front of which stands a trailer or nothing.
  framed-split :
      (rest : Bytes)
      → framed begin_string fs ++ rest
        ≡ b'8' ∷ equals ∷ (begin_string ++ soh ∷ length_field body_length (render fs ++ rest))
  unfolding to_digits digits_loop reverse_onto
  framed-split rest =
      let front = begin_string ++ soh ∷ [] in
      ap (λ z. b'8' ∷ equals ∷ z)
        (append_assoc front (length_field body_length (render fs)) rest
          ∙ append_assoc begin_string (soh ∷ []) (length_field body_length (render fs) ++ rest))

  pub length-framed : length (framed begin_string fs) ≡ 12 + length begin_string + body_length
  unfolding to_digits digits_loop reverse_onto
  length-framed = omega (
    arith,
    length-append (begin_string ++ soh ∷ []) (length_field body_length (render fs)),
    length-append begin_string (soh ∷ []),
  )

  framed-ended : at (framed begin_string fs) (length (framed begin_string fs) - 1) ≡ soh
  framed-ended =
      let front = encode Tag.begin_string begin_string in
      rw (sym (append_assoc front (b'9' ∷ equals ∷ six_digits body_length) (soh ∷ render fs)))
        (ended (front ++ b'9' ∷ equals ∷ six_digits body_length) fs)

  -- The test of the body length, when a trailer follows.
  pub framed-body_length :
      (sum : ℕ)
      → IsPlain begin_string
      → 0 < body_length
      → validate_body_length (framed begin_string fs ++ trailer sum) (pos body_length) ≡ ok tt
  unfolding validate_body_length find_body_start
  framed-body_length sum plain some_body =
      let body = framed begin_string fs in
      let bytes = message body sum in
      let from : find_body_start bytes 0 ≡ length begin_string + 12 =
        ap (λ z. find_body_start z 0) (framed-split (trailer sum))
        ∙ find_body_start-plain begin_string (render fs ++ trailer sum) body_length 2 plain
        ∙ omega arith in
      let to =
        find_body_end-message body sum (length begin_string + 12) (omega (arith, length-framed))
          (omega (arith, length-framed)) framed-ended in
      let found : ((length begin_string + 12) == 0) ≡ false = ground arith in
      let closed : ((length body - 1) == 0) ≡ false = ground (arith, length-framed) in
      let same : (body_length == (length body - 1 - (length begin_string + 12) + 1)) ≡ true =
        ground (arith, length-framed) in
      rw (from, found) (rw (to, closed) (rw same refl))
