-- ===== src/Parser/Vector/Find.antt =====
-- The searches of include/nexusfix/parser/simd_scanner.hpp with vector registers.
use nexus_fix.Base.{
  ℕ, zero, suc, ◌+◌, ◌*◌, ◌%◌, ◌≤◌, ◌<◌, ◌≡◌, ◌≢◌, refl, sym, ap, ◌∙◌, inl, inr, false, [], ◌∷◌,
  Option, none, some, arith, ltb, leb, ◌==◌, if◌then◌else◌, Bytes, length, take, drop, Bool-cases,
}
use native.Mathlib.Nat.{add-mod_right, add-mul}
use nexus_fix.Types.{soh}
use nexus_fix.Parser.Boundary.Bounds.{length-drop}
use nexus_fix.Parser.Vector.{
  VectorUnit, matches, mask_of, seek, find_scalar, count_tail, align, find_loop, find_vector,
  simd_end, count_loop, count_soh_vector,
}
use nexus_fix.Parser.Vector.Bits.{seek_set, first_match, count_set, popcount-count_set}
use nexus_fix.Parser.Vector.Scan.{chunk_lengths, length-matches, whole_register}

twice_zero : (m : ℕ) → (m * 2 == 0) ≡ (m == 0)
twice_zero m = ground arith

nonzero : (m : ℕ) → (m == 0) ≡ false → m ≢ 0
nonzero m h e = ground arith

aligned-next :
    (address i width : ℕ) → (address + i) % width ≡ 0 → (address + (i + width)) % width ≡ 0
aligned-next address i width h =
    let place : address + (i + width) ≡ address + i + width = omega arith in
    ap (λ n. n % width) place ∙ (add-mod_right (address + i) width ∙ h)

-- The search in a register, and behind it.
seek-register :
    (c n : ℕ) (bytes : Bytes) (i : ℕ)
    → n ≤ length bytes
    → seek c bytes i ≡ (
        if mask_of (matches c (take n bytes)) == 0
        then seek c (drop n bytes) (i + n)
        else seek_set (matches c (take n bytes)) i)
unfolding seek seek_set mask_of
seek-register c zero bytes i h = ap (seek c bytes) (omega arith)
seek-register c (suc n) [] i h = absurd (omega arith)
seek-register c (suc n) (b ∷ bs) i h = elim (Bool-cases (b == c)) [
  | inl e ↦
      let hit : (mask_of (matches c (take n bs)) * 2 + 1 == 0) ≡ false = ground arith in
      rw (e, hit) refl
  | inr e ↦
      let place : i + 1 + n ≡ i + suc n = omega arith in
      rw (e, ← place, twice_zero (mask_of (matches c (take n bs))))
        (seek-register c n bs (i + 1) (omega arith))
]

module _ (width : ℕ) (vu : VectorUnit width) (positive : 0 < width) where
  find_loop-seek :
      (fuel address c size : ℕ) (bytes : Bytes) (i : ℕ)
      → (address + i) % width ≡ 0
      → i + length bytes ≡ size
      → find_loop width vu fuel address c size bytes i ≡ seek c bytes i
  unfolding find_loop
  find_loop-seek zero address c size bytes i a s = refl
  find_loop-seek (suc fuel) address c size bytes i a s = elim (Bool-cases (leb (i + width) size)) [
    | inr done ↦ rw done
    | inl more ↦
        let enough : width ≤ length bytes = ground arith in
        let lengths = chunk_lengths width bytes enough in
        let bits = length-matches c (take width bytes) in
        let mask : ℕ = mask_of (matches c (take width bytes)) in
        rw
          (
            more,
            vu.load_aligned-mask (address + i) bytes c a enough,
            seek-register c width bytes i enough,
          )
          (elim (Bool-cases (mask == 0)) [
            | inl e ↦ rw e (
                find_loop-seek fuel address c size (drop width bytes) (i + width)
                  (aligned-next address i width a) (omega (arith, lengths.1, s, enough)))
            | inr e ↦
                rw e
                  (first_match width (matches c (take width bytes)) i
                    (omega (arith, bits, lengths.0)) (nonzero mask e)).0
          ])
  ]

  find_loop-end :
      (fuel address c size i : ℕ)
      → i + 0 ≡ size
      → find_loop width vu fuel address c size [] i ≡ seek c [] i
  unfolding find_loop
  find_loop-end zero address c size i s = refl
  find_loop-end (suc fuel) address c size i s =
      let past : leb (i + width) size ≡ false = ground arith in rw past refl

  -- A search that goes on behind the aligning loop gives what it gives from the start.
  abbrev goes_on : ℕ → ℕ → ℕ → Option ℕ × Bytes × ℕ → ℕ
  goes_on address c size p = elim p.0 [
    | some j ↦ j
    | none ↦ find_loop width vu size address c size p.1 p.2
  ]

  align-seek :
      (address c size : ℕ) (bytes : Bytes) (i : ℕ)
      → i + length bytes ≡ size
      → goes_on address c size (align width vu address c bytes i) ≡ seek c bytes i
  unfolding align seek
  align-seek address c size [] i s = find_loop-end size address c size i s
  align-seek address c size (b ∷ bs) i s = elim (Bool-cases ((address + i) % width == 0)) [
    | inl e ↦ rw e (find_loop-seek size address c size (b ∷ bs) i (ground arith) s)
    | inr e ↦ elim (Bool-cases (b == c)) [
      | inl e' ↦ rw (e, e') refl
      | inr e' ↦ rw (e, e') (align-seek address c size bs (i + 1) (omega (arith, s)))
    ]
  ]

  pub find_vector-eq :
      (address c : ℕ) (bytes : Bytes) (start : ℕ)
      → find_vector width vu address c bytes start ≡ find_scalar c bytes start
  unfolding find_vector find_scalar
  find_vector-eq address c bytes start = elim (Bool-cases (leb (length bytes) start)) [
    | inl e ↦ rw e refl
    | inr e ↦ rw e (
        align-seek address c (length bytes) (drop start bytes) start
          (ground (arith, length-drop start bytes)))
  ]

count_tail-register :
    (n : ℕ) (bytes : Bytes) (count : ℕ)
    → n ≤ length bytes
    → count_tail bytes count
      ≡ count_tail (drop n bytes) (count + count_set (matches soh (take n bytes)))
unfolding count_tail count_set
count_tail-register zero bytes count h = ap (count_tail bytes) (omega arith)
count_tail-register (suc n) [] count h = absurd (omega arith)
count_tail-register (suc n) (b ∷ bs) count h = elim (Bool-cases (b == soh)) [
  | inl e ↦
      let m = count_set (matches soh (take n bs)) in
      let place : count + 1 + m ≡ count + (m + 1) = omega arith in
      rw (e, ← place) (count_tail-register n bs (count + 1) (omega arith))
  | inr e ↦ rw e (count_tail-register n bs count (omega arith))
]

module _ (width : ℕ) (vu : VectorUnit width) (positive : 0 < width) where
  count_loop-tail :
      (fuel size q : ℕ) (bytes : Bytes) (i count : ℕ)
      → i ≡ q * width
      → i + length bytes ≡ size
      → count_loop width vu fuel (simd_end width size) bytes i count ≡ count_tail bytes count
  unfolding count_loop
  count_loop-tail zero size q bytes i count e s = refl
  count_loop-tail (suc fuel) size q bytes i count e s =
      elim (Bool-cases (ltb i (simd_end width size))) [
        | inr done ↦ rw done
        | inl more ↦
            let fits = whole_register width q size positive (ground (arith, e)) in
            let enough : width ≤ length bytes = omega (arith, fits, e, s) in
            let lengths = chunk_lengths width bytes enough in
            let bits = length-matches soh (take width bytes) in
            let ones =
              popcount-count_set width (matches soh (take width bytes))
                (omega (arith, bits, lengths.0)) in
            rw (more, vu.load-mask bytes soh enough, ones)
              (count_loop-tail fuel size (q + 1) (drop width bytes) (i + width) _
                  (omega (arith, e, add-mul q 1 width)) (omega (arith, lengths.1, s, enough))
                ∙ sym (count_tail-register width bytes count enough))
      ]

  pub count_soh_vector-eq : (bytes : Bytes) → count_soh_vector width vu bytes ≡ count_tail bytes 0
  unfolding count_soh_vector
  count_soh_vector-eq bytes =
      count_loop-tail (length bytes) (length bytes) 0 bytes 0 0 (omega arith) (omega arith)
