-- ===== src/Parser/Vector.antt =====
-- include/nexusfix/parser/simd_scanner.hpp: the scanners that compare a register of bytes at a time, and
-- the choice between them. The functions for the registers of 32 and of 64 bytes, with intrinsics and
-- with xsimd, are one function of the width. The vector instructions are a parameter: a register holds
-- what was loaded only if the load lay within the bytes, and an aligned one at a multiple of the width.
pub mod Bits
pub mod Scan
pub mod Find
pub mod Agree
use Prim.Native.Nat.{bit_and}
use nexus_fix.Base.{
  ℕ, zero, suc, ◌+◌, ◌-◌, ◌/◌, ◌%◌, ◌^◌, ◌≤◌, ◌≡◌, ◌*◌, Bool, true, false, not, ◌&&◌, ◌||◌, List,
  [], ◌∷◌, ◌++◌, map, Option, none, some, ltb, leb, ◌==◌, if◌then◌else◌, Bytes, length, take, drop,
}
use nexus_fix.Base.Words.{sub64}
use nexus_fix.Types.{soh, equals}
use nexus_fix.Parser.Message.{SohPositions, max_soh_positions, check_truncation}
use nexus_fix.Parser.Message

-- The number whose binary digits, the lowest first, are the tests' results.
unfoldable pub mask_of : List Bool → ℕ
mask_of [] = 0
mask_of (true ∷ bs) = mask_of bs * 2 + 1
mask_of (false ∷ bs) = mask_of bs * 2

abbrev pub matches : ℕ → Bytes → List Bool
matches c bytes = map (λ b. b == c) bytes

-- Loads, a register filled with one byte, and the comparison of two registers as a mask.
pub record VectorUnit (width : ℕ) : Type 1 where
  pub Vector : Type 0
  pub load : Bytes → Vector
  pub load_aligned : ℕ → Bytes → Vector
  pub broadcast : ℕ → Vector
  pub equal_mask : Vector → Vector → ℕ
  pub load-mask :
      (bytes : Bytes) (c : ℕ)
      → width ≤ length bytes
      → equal_mask (load bytes) (broadcast c) ≡ mask_of (matches c (take width bytes))
  pub load_aligned-mask :
      (address : ℕ) (bytes : Bytes) (c : ℕ)
      → address % width ≡ 0
      → width ≤ length bytes
      → equal_mask (load_aligned address bytes) (broadcast c)
        ≡ mask_of (matches c (take width bytes))

-- `std::countr_zero` and `std::popcount` of a word of so many bits.
unfoldable pub countr_zero : ℕ → ℕ → ℕ
countr_zero zero n = 0
countr_zero (suc bits) n = if n % 2 == 1 then 0 else countr_zero bits (n / 2) + 1

unfoldable pub popcount : ℕ → ℕ → ℕ
popcount zero n = 0
popcount (suc bits) n = n % 2 + popcount bits (n / 2)

-- `SohPositions::push`.
unfoldable pub push : ℕ → SohPositions → SohPositions
push p r =
    if ltb (length r.positions) max_soh_positions
    then record r { positions = r.positions ++ p ∷ [] }
    else record r { truncated = true }

-- The loop over the set bits of a mask of `bits` bits; each round clears one.
unfoldable pub extract : ℕ → ℕ → ℕ → ℕ → SohPositions → SohPositions
extract bits zero simd_pos mask r = r
extract bits (suc fuel) simd_pos mask r =
    let next =
      extract bits fuel simd_pos (bit_and mask (mask - 1))
        (push ((simd_pos + countr_zero bits mask) % 2 ^ 16) r) in
    if mask == 0 then r else next

-- The scalar tail of `scan_soh`, from index `i` on.
unfoldable pub tail_loop : Bytes → ℕ → SohPositions → SohPositions
tail_loop [] i r = r
tail_loop (c ∷ cs) i r =
    let next = tail_loop cs (i + 1) (if c == soh then push (i % 2 ^ 16) r else r) in
    if ltb (length r.positions) max_soh_positions then next else r

-- The index of the first byte that is `c`; at the end, the buffer's size.
unfoldable pub seek : ℕ → Bytes → ℕ → ℕ
seek c [] i = i
seek c (b ∷ bs) i = if b == c then i else seek c bs (i + 1)

-- `find_soh_scalar` and `find_equals_scalar`.
unfoldable pub find_scalar : ℕ → Bytes → ℕ → ℕ
find_scalar c bytes start =
    if leb (length bytes) start then length bytes else seek c (drop start bytes) start

unfoldable pub count_tail : Bytes → ℕ → ℕ
count_tail [] count = count
count_tail (c ∷ cs) count = count_tail cs (if c == soh then count + 1 else count)

-- `data.size() & ~(width - 1)`
abbrev pub simd_end : ℕ → ℕ → ℕ
simd_end width size = size - size % width

module _ (width : ℕ) (vu : VectorUnit width) where
  -- What is left of the bytes, and its index, stand behind the positions.
  unfoldable pub simd_loop : ℕ → ℕ → Bytes → ℕ → SohPositions → SohPositions × Bytes × ℕ
  simd_loop zero end bytes simd_pos r = (r, bytes, simd_pos)
  simd_loop (suc fuel) end bytes simd_pos r =
      let mask = vu.equal_mask (vu.load bytes) (vu.broadcast soh) in
      let next =
        simd_loop fuel end (drop width bytes) (simd_pos + width)
          (extract width width simd_pos mask r) in
      if ltb simd_pos end && ltb (length r.positions) (max_soh_positions - width)
      then next
      else (r, bytes, simd_pos)

  unfoldable pub scan_soh_vector : Bytes → SohPositions
  scan_soh_vector bytes =
      let (r, rest, simd_pos) =
        simd_loop (length bytes) (simd_end width (length bytes)) bytes 0
          (record { positions = []; truncated = false }) in
      let r' = tail_loop rest simd_pos r in
      record r' { truncated = if check_truncation r'.positions bytes then true else r'.truncated }

  -- The loop up to the first aligned address: an index that was found, or where the loop ended. The
  -- bytes begin at `address`.
  unfoldable pub align : ℕ → ℕ → Bytes → ℕ → Option ℕ × Bytes × ℕ
  align address c [] i = (none, [], i)
  align address c (b ∷ bs) i =
      let next = align address c bs (i + 1) in
      if (address + i) % width == 0
      then (none, b ∷ bs, i)
      else if b == c
      then (some i, b ∷ bs, i)
      else next

  -- The loop over whole registers, and the tail behind it.
  unfoldable pub find_loop : ℕ → ℕ → ℕ → ℕ → Bytes → ℕ → ℕ
  find_loop zero address c size bytes i = seek c bytes i
  find_loop (suc fuel) address c size bytes i =
      let mask = vu.equal_mask (vu.load_aligned (address + i) bytes) (vu.broadcast c) in
      let next = find_loop fuel address c size (drop width bytes) (i + width) in
      if leb (i + width) size
      then (if not (mask == 0) then i + countr_zero width mask else next)
      else seek c bytes i

  unfoldable pub find_vector : ℕ → ℕ → Bytes → ℕ → ℕ
  find_vector address c bytes start =
      let size = length bytes in
      let (found, rest, i) = align address c (drop start bytes) start in
      if leb size start
      then size
      else elim found [ some j ↦ j | none ↦ find_loop size address c size rest i ]

  unfoldable pub count_loop : ℕ → ℕ → Bytes → ℕ → ℕ → ℕ
  count_loop zero end bytes i count = count_tail bytes count
  count_loop (suc fuel) end bytes i count =
      let mask = vu.equal_mask (vu.load bytes) (vu.broadcast soh) in
      let next = count_loop fuel end (drop width bytes) (i + width) (count + popcount width mask) in
      if ltb i end then next else count_tail bytes count

  unfoldable pub count_soh_vector : Bytes → ℕ
  count_soh_vector bytes = count_loop (length bytes) (simd_end width (length bytes)) bytes 0 0

-- The functions of the two widths.
abbrev pub scan_soh_avx2 : VectorUnit 32 → Bytes → SohPositions
scan_soh_avx2 vu bytes = scan_soh_vector 32 vu bytes

abbrev pub scan_soh_avx512 : VectorUnit 64 → Bytes → SohPositions
scan_soh_avx512 vu bytes = scan_soh_vector 64 vu bytes

abbrev pub find_soh_avx2 : VectorUnit 32 → ℕ → Bytes → ℕ → ℕ
find_soh_avx2 vu address bytes start = find_vector 32 vu address soh bytes start

abbrev pub find_soh_avx512 : VectorUnit 64 → ℕ → Bytes → ℕ → ℕ
find_soh_avx512 vu address bytes start = find_vector 64 vu address soh bytes start

abbrev pub find_equals_avx2 : VectorUnit 32 → ℕ → Bytes → ℕ → ℕ
find_equals_avx2 vu address bytes start = find_vector 32 vu address equals bytes start

abbrev pub find_equals_avx512 : VectorUnit 64 → ℕ → Bytes → ℕ → ℕ
find_equals_avx512 vu address bytes start = find_vector 64 vu address equals bytes start

abbrev pub count_soh_avx2 : VectorUnit 32 → Bytes → ℕ
count_soh_avx2 vu bytes = count_soh_vector 32 vu bytes

abbrev pub count_soh_avx512 : VectorUnit 64 → Bytes → ℕ
count_soh_avx512 vu bytes = count_soh_vector 64 vu bytes

-- The registers that the build was made for, and the choice by the number of bytes to be scanned.
module _ (avx512 : Option (VectorUnit 64)) (avx2 : Option (VectorUnit 32)) where
  unfoldable pub select {ℓ} : {A : Type ℓ} → ℕ → (VectorUnit 64 → A) → (VectorUnit 32 → A) → A → A
  select {A} size large small scalar =
      let narrow : A = elim avx2 [
        | none ↦ scalar
        | some vu ↦ if leb 64 size then small vu else scalar
      ] in
      elim avx512 [ none ↦ narrow | some vu ↦ if leb 128 size then large vu else narrow ]

  unfoldable pub scan_soh : Bytes → SohPositions
  scan_soh bytes =
      select (length bytes) (λ vu. scan_soh_avx512 vu bytes) (λ vu. scan_soh_avx2 vu bytes)
        (Message.scan_soh bytes)

  unfoldable pub find_soh : ℕ → Bytes → ℕ → ℕ
  find_soh address bytes start =
      select (sub64 (length bytes) start) (λ vu. find_soh_avx512 vu address bytes start)
        (λ vu. find_soh_avx2 vu address bytes start) (find_scalar soh bytes start)

  unfoldable pub find_equals : ℕ → Bytes → ℕ → ℕ
  find_equals address bytes start =
      select (sub64 (length bytes) start) (λ vu. find_equals_avx512 vu address bytes start)
        (λ vu. find_equals_avx2 vu address bytes start) (find_scalar equals bytes start)

  unfoldable pub count_soh : Bytes → ℕ
  count_soh bytes =
      select (length bytes) (λ vu. count_soh_avx512 vu bytes) (λ vu. count_soh_avx2 vu bytes)
        (count_tail bytes 0)
