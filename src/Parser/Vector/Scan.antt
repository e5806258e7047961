-- ===== src/Parser/Vector/Scan.antt =====
-- The scanner of include/nexusfix/parser/simd_scanner.hpp that records the positions of all SOH bytes, with
-- vector registers.
use nexus_fix.Base.{
  ℕ, zero, suc, ◌+◌, ◌-◌, ◌*◌, ◌/◌, ◌%◌, ◌^◌, ◌≤◌, ◌<◌, ◌≡◌, refl, sym, ap, ◌∙◌, inl, inr, Bool,
  true, false, ◌&&◌, List, [], ◌∷◌, ◌++◌, arith, ltb, ◌==◌, if◌then◌else◌, Bytes, length, take,
  drop, length-append, Bool-cases,
}
use native.Mathlib.Nat.{div-add-mod', mul-le-mul_right, add-mul}
use mathlib.Core.List.{append-nil, append_assoc}
use nexus_fix.Types.{soh}
use nexus_fix.Parser.Message.{
  SohPositions, max_soh_positions, check_truncation, scan_positions, scan_soh,
}
use nexus_fix.Parser.Vector.{
  VectorUnit, matches, push, extract, tail_loop, simd_end, simd_loop, scan_soh_vector,
}
use nexus_fix.Parser.Vector.Bits.{push_set, extract-push_set}

pub chunk_lengths :
    (n : ℕ) (bytes : Bytes)
    → n ≤ length bytes
    → length (take n bytes) ≡ n × length (drop n bytes) ≡ length bytes - n
chunk_lengths zero bytes h = (refl, omega arith)
chunk_lengths (suc n) [] h = absurd (omega arith)
chunk_lengths (suc n) (b ∷ bs) h =
    let rest = chunk_lengths n bs (omega arith) in (ap suc rest.0, omega (arith, rest.1))

pub length-matches : (c : ℕ) (bytes : Bytes) → length (matches c bytes) ≡ length bytes
length-matches c [] = refl
length-matches c (b ∷ bs) = ap suc (length-matches c bs)

length-push : (p : ℕ) (r : SohPositions) → length (push p r).positions ≤ length r.positions + 1
unfolding push
length-push p r = elim (Bool-cases (ltb (length r.positions) max_soh_positions)) [
  | inl e ↦ rw e (omega (arith, length-append r.positions (p ∷ [])))
  | inr e ↦ rw e (omega arith)
]

-- While there is room, the scalar loop does the same as a whole register.
tail_loop-chunk :
    (n : ℕ) (bytes : Bytes) (i : ℕ) (r : SohPositions)
    → n ≤ length bytes
    → length r.positions + n ≤ max_soh_positions
    → tail_loop bytes i r
      ≡ tail_loop (drop n bytes) (i + n) (push_set (matches soh (take n bytes)) i r)
unfolding tail_loop push_set
tail_loop-chunk zero bytes i r h k = ap (λ j. tail_loop bytes j r) (omega arith)
tail_loop-chunk (suc n) [] i r h k = absurd (omega arith)
tail_loop-chunk (suc n) (b ∷ bs) i r h k =
    let room : ltb (length r.positions) max_soh_positions ≡ true = ground arith in
    let place : i + 1 + n ≡ i + suc n = omega arith in
    elim (Bool-cases (b == soh)) [
      | inl e ↦
          rw (room, e, ← place)
            (tail_loop-chunk n bs (i + 1) (push (i % 2 ^ 16) r) (omega arith)
              (omega (arith, length-push (i % 2 ^ 16) r)))
      | inr e ↦ rw (room, e, ← place) (tail_loop-chunk n bs (i + 1) r (omega arith) (omega arith))
    ]

pub below : (i end : ℕ) (b : Bool) → ltb i end && b ≡ true → i < end
below i end b h = ground arith

room :
    (n width : ℕ) (b : Bool)
    → b && ltb n (max_soh_positions - width) ≡ true
    → n + width ≤ max_soh_positions
room n width b h = ground arith

pub whole_register :
    (width q size : ℕ) → 0 < width → q * width < size - size % width → q * width + width ≤ size
whole_register width q size h k =
    let parts = div-add-mod' size width in
    elim (Bool-cases (ltb q (size / width))) [
      | inl e ↦
          let below : q + 1 ≤ size / width = ground arith in
          omega (arith, parts, mul-le-mul_right width below, add-mul q 1 width)
      | inr e ↦
          let above : size / width ≤ q = ground arith in
          absurd (omega (arith, parts, k, mul-le-mul_right width above))
    ]

module _ (width : ℕ) (vu : VectorUnit width) (positive : 0 < width) where
  -- The scalar loop behind the vector loop ends as it would have from the start.
  simd_loop-tail :
      (fuel size q : ℕ) (bytes : Bytes) (i : ℕ) (r : SohPositions)
      → i ≡ q * width
      → i + length bytes ≡ size
      → (λ (s : SohPositions × Bytes × ℕ). tail_loop s.1 s.2 s.0)
          (simd_loop width vu fuel (simd_end width size) bytes i r)
        ≡ tail_loop bytes i r
  unfolding simd_loop
  simd_loop-tail zero size q bytes i r e s = refl
  simd_loop-tail (suc fuel) size q bytes i r e s =
      elim (Bool-cases
        (ltb i (simd_end width size) && ltb (length r.positions) (max_soh_positions - width))) [
          | inr done ↦ rw done
          | inl more ↦
              let fits =
                whole_register width q size positive (omega (arith, below i _ _ more, e)) in
              let enough : width ≤ length bytes = omega (arith, fits, e, s) in
              let lengths = chunk_lengths width bytes enough in
              let bits = length-matches soh (take width bytes) in
              let step : extract width width i (vu.equal_mask (vu.load bytes) (vu.broadcast soh)) r
                  ≡ push_set (matches soh (take width bytes)) i r =
                ap (λ m. extract width width i m r) (vu.load-mask bytes soh enough)
                ∙ extract-push_set width width i (matches soh (take width bytes)) r
                    (omega (arith, bits, lengths.0)) (omega (arith, bits, lengths.0)) in
              rw (more, step)
                (simd_loop-tail fuel size (q + 1) (drop width bytes) (i + width) _
                    (omega (arith, e, add-mul q 1 width)) (omega (arith, lengths.1, s, enough))
                  ∙ sym (
                      tail_loop-chunk width bytes i r enough
                        (room (length r.positions) width _ more)))
        ]

scan_positions-full : (bytes : Bytes) (i : ℕ) → scan_positions 0 bytes i ≡ []
unfolding scan_positions
scan_positions-full [] i = refl
scan_positions-full (b ∷ bs) i = elim (Bool-cases (b == soh)) [
  | inl e ↦ rw e refl
  | inr e ↦ rw e (scan_positions-full bs (i + 1))
]

abbrev with_positions : SohPositions → List ℕ → SohPositions
with_positions r ps = record { positions = ps; truncated = r.truncated }

-- From no positions on, the loop records what the scalar scanner does.
tail_loop-scan :
    (bytes : Bytes) (i left : ℕ) (r : SohPositions)
    → length r.positions + left ≡ max_soh_positions
    → tail_loop bytes i r ≡ with_positions r (r.positions ++ scan_positions left bytes i)
unfolding tail_loop scan_positions push
tail_loop-scan [] i left r h = ap (with_positions r) (sym (append-nil r.positions))
tail_loop-scan (b ∷ bs) i zero r h =
    let none_left : ltb (length r.positions) max_soh_positions ≡ false = ground arith in
    rw (none_left, scan_positions-full (b ∷ bs) i)
      (ap (with_positions r) (sym (append-nil r.positions)))
tail_loop-scan (b ∷ bs) i (suc left) r h =
    let some_left : ltb (length r.positions) max_soh_positions ≡ true = ground arith in
    elim (Bool-cases (b == soh)) [
      | inl e ↦
          rw (some_left, e)
            (tail_loop-scan bs (i + 1) left (with_positions r (r.positions ++ i % 2 ^ 16 ∷ []))
                (omega (arith, length-append r.positions (i % 2 ^ 16 ∷ [])))
              ∙ ap (with_positions r)
                  (append_assoc r.positions (i % 2 ^ 16 ∷ []) (scan_positions left bs (i + 1))))
      | inr e ↦ rw (some_left, e) (tail_loop-scan bs (i + 1) (suc left) r h)
    ]

abbrev with_truncated : Bool → List ℕ → SohPositions
with_truncated t ps = record { positions = ps; truncated = t }

if_self : (b : Bool) → (if b then true else false) ≡ b
if_self true = refl
if_self false = refl

pub scan_soh_vector-eq :
    (width : ℕ) (vu : VectorUnit width) (bytes : Bytes)
    → 0 < width
    → scan_soh_vector width vu bytes ≡ scan_soh bytes
unfolding scan_soh_vector scan_soh
scan_soh_vector-eq width vu bytes h =
    let loop =
      simd_loop-tail width vu h (length bytes) (length bytes) 0 bytes 0
        (record { positions = []; truncated = false }) (omega arith) (omega arith) in
    let scalar =
      tail_loop-scan bytes 0 max_soh_positions (record { positions = []; truncated = false })
        (omega arith) in
    rw (loop, scalar)
      (ap (λ (t : Bool). with_truncated t (scan_positions max_soh_positions bytes 0))
        (if_self (check_truncation (scan_positions max_soh_positions bytes 0) bytes)))
