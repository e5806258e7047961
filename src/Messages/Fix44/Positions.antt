-- ===== src/Messages/Fix44/Positions.antt =====
-- The positions that `scan_soh` of include/nexusfix/parser/simd_scanner.hpp records in the bytes of
-- fields, as the assembler of include/nexusfix/messages/common/trailer.hpp writes them.
use nexus_fix.Base.{
  ℕ, zero, suc, ◌+◌, ◌%◌, ◌^◌, ◌≤◌, ◌≡◌, refl, sym, ap, ◌∙◌, Bool, true, false, not, List, [], ◌∷◌,
  ◌++◌, arith, ◌==◌, Bytes, length, length-append, all,
}
use mathlib.Core.List.{append_assoc}
use nexus_fix.Types.{soh, equals}
use nexus_fix.Parser.Message.{scan_positions}
use nexus_fix.Messages.Assembler.{to_digits}
use nexus_fix.Messages.Assembler.Appended.{encode}
use nexus_fix.Messages.Fix44.Fields.{Fields}
use nexus_fix.Messages.Fix44.Written.{render}
use nexus_fix.Messages.Fix44.Reads.{IsPlain}
use nexus_fix.Messages.Fix44.Plain.{plain-to_digits}

-- The values of fields hold no SOH.
abbrev pub all_plain : Fields → Bool
all_plain fs = all (λ (f : ℕ × Bytes). all (λ c. not (c == soh)) f.1) fs

-- How many bytes a field has in front of its SOH.
abbrev pub width : ℕ × Bytes → ℕ
width (tag, value) = length (to_digits tag) + 1 + length value

-- The positions of the fields' SOH bytes, the first byte having index `i`.
abbrev pub ends : ℕ → Fields → List ℕ
ends i [] = []
ends i (f ∷ fs) = (i + width f) ∷ ends (i + width f + 1) fs

pub length-ends : (i : ℕ) (fs : Fields) → length (ends i fs) ≡ length fs
length-ends i [] = refl
length-ends i (f ∷ fs) = ap suc (length-ends (i + width f + 1) fs)

scan_positions-plain :
    (left i : ℕ) (text r : Bytes)
    → IsPlain text
    → scan_positions (suc left) (text ++ soh ∷ r) i
      ≡ (i + length text) % 2 ^ 16 ∷ scan_positions left r (i + length text + 1)
unfolding scan_positions all
scan_positions-plain left i [] r h = let here : i + 0 ≡ i = omega arith in rw here refl
scan_positions-plain left i (c ∷ cs) r h =
    let inside : (c == soh) ≡ false = ground arith in
    let next : i + 1 + length cs ≡ i + suc (length cs) = omega arith in
    rw inside (rw next at (scan_positions-plain left (i + 1) cs r (ground arith)))

plain_append : (xs ys : Bytes) → IsPlain xs → IsPlain ys → IsPlain (xs ++ ys)
unfolding all
plain_append [] ys h k = k
plain_append (x ∷ xs) ys h k = ground (arith, plain_append xs ys)

encode-split :
    (tag : ℕ) (value r : Bytes)
    → encode tag value ++ r ≡ (to_digits tag ++ equals ∷ value) ++ soh ∷ r
encode-split tag value r =
    ap (λ z. z ++ r) (sym (append_assoc (to_digits tag) (equals ∷ value) (soh ∷ [])))
    ∙ append_assoc (to_digits tag ++ equals ∷ value) (soh ∷ []) r

pub scan_positions-render :
    (left i : ℕ) (fs : Fields)
    → all_plain fs ≡ true
    → length fs ≤ left
    → i + length (render fs) ≤ 2 ^ 16
    → scan_positions left (render fs) i ≡ ends i fs
unfolding all scan_positions
scan_positions-render left i [] h k l = refl
scan_positions-render zero i (f ∷ fs) h k l = absurd (omega arith)
scan_positions-render (suc left) i ((tag, value) ∷ fs) h k l =
    let text = to_digits tag ++ equals ∷ value in
    let wide : length text ≡ width (tag, value) =
      omega (arith, length-append (to_digits tag) (equals ∷ value)) in
    let sizes =
      ap length (encode-split tag value (render fs)) ∙ length-append text (soh ∷ render fs) in
    let plain =
      plain_append (to_digits tag) (equals ∷ value) (plain-to_digits tag) (ground arith) in
    let small : (i + width (tag, value)) % 2 ^ 16 ≡ i + width (tag, value) =
      omega (arith, sizes, wide) in
    rw (encode-split tag value (render fs)) (
      scan_positions-plain left i text (render fs) plain
      ∙ rw wide (
          rw small (
            ap (λ z. (i + width (tag, value)) ∷ z)
              (scan_positions-render left (i + width (tag, value) + 1) fs (ground arith)
                (omega arith) (omega (arith, sizes, wide))))))
