-- ===== src/Parser/Vector/Agree.antt =====
-- The scanners of include/nexusfix/parser/simd_scanner.hpp with vector registers and without.
use nexus_fix.Base.{
  ℕ, ◌≡◌, refl, inl, inr, Option, none, some, arith, leb, Bytes, length, Bool-cases,
}
use nexus_fix.Base.Words.{sub64}
use nexus_fix.Types.{soh, equals}
use nexus_fix.Parser.Message
use nexus_fix.Parser.Message.{SohPositions}
use nexus_fix.Parser.Vector.{
  VectorUnit, find_scalar, count_tail, select, scan_soh, find_soh, find_equals, count_soh,
}
use nexus_fix.Parser.Vector.Scan.{scan_soh_vector-eq}
use nexus_fix.Parser.Vector.Find.{find_vector-eq, count_soh_vector-eq}

-- Whatever is chosen, if all choices agree.
module _ {ℓ} {A : Type ℓ} (size : ℕ) (large : VectorUnit 64 → A) (small : VectorUnit 32 → A) where
  select_narrow :
      (scalar : A) (avx2 : Option (VectorUnit 32))
      → ((vu : VectorUnit 32) → small vu ≡ scalar)
      → select none avx2 size large small scalar ≡ scalar
  unfolding select
  select_narrow scalar none k = refl
  select_narrow scalar (some vu) k = elim (Bool-cases (leb 64 size)) [
    | inl e ↦ rw e (k vu)
    | inr e ↦ rw e refl
  ]

  select-same :
      (scalar : A) (avx512 : Option (VectorUnit 64)) (avx2 : Option (VectorUnit 32))
      → ((vu : VectorUnit 64) → large vu ≡ scalar)
      → ((vu : VectorUnit 32) → small vu ≡ scalar)
      → select avx512 avx2 size large small scalar ≡ scalar
  unfolding select
  select-same scalar none avx2 h k = select_narrow scalar avx2 k
  select-same scalar (some wide) avx2 h k = elim (Bool-cases (leb 128 size)) [
    | inl e ↦ rw e (h wide)
    | inr e ↦ rw e (select_narrow scalar avx2 k)
  ]

module _ (avx512 : Option (VectorUnit 64)) (avx2 : Option (VectorUnit 32)) where
  -- Whichever vector registers the build has, and at whatever address the bytes begin, the
  -- scanner of SOH positions, the two searches and the count of SOH bytes answer what the
  -- scalar loops do. The registers need only hold what is loaded within the bytes and, for
  -- aligned loads, at a multiple of their width.
  pub scanners_agree :
      (bytes : Bytes) (address start : ℕ)
      → scan_soh avx512 avx2 bytes ≡ Message.scan_soh bytes
        × find_soh avx512 avx2 address bytes start ≡ find_scalar soh bytes start
        × find_equals avx512 avx2 address bytes start ≡ find_scalar equals bytes start
        × count_soh avx512 avx2 bytes ≡ count_tail bytes 0
  unfolding scan_soh find_soh find_equals count_soh
  scanners_agree bytes address start = (
    select-same (length bytes) _ _ _ avx512 avx2
        (λ vu. scan_soh_vector-eq 64 vu bytes (omega arith))
        (λ vu. scan_soh_vector-eq 32 vu bytes (omega arith)),
    select-same (sub64 (length bytes) start) _ _ _ avx512 avx2
        (λ vu. find_vector-eq 64 vu (omega arith) address soh bytes start)
        (λ vu. find_vector-eq 32 vu (omega arith) address soh bytes start),
    select-same (sub64 (length bytes) start) _ _ _ avx512 avx2
        (λ vu. find_vector-eq 64 vu (omega arith) address equals bytes start)
        (λ vu. find_vector-eq 32 vu (omega arith) address equals bytes start),
    select-same (length bytes) _ _ _ avx512 avx2
        (λ vu. count_soh_vector-eq 64 vu (omega arith) bytes)
        (λ vu. count_soh_vector-eq 32 vu (omega arith) bytes),
  )
