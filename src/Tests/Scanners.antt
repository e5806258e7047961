-- ===== src/Tests/Scanners.antt =====
-- The scanners of include/nexusfix/parser/simd_scanner.hpp on a register that is a list of bytes.
use nexus_fix.Base.{
  ℕ, zero, suc, ◌≤◌, ◌≡◌, refl, ap, Bool, List, [], ◌∷◌, ◌++◌, Option, none, some, arith, ◌==◌,
  Bytes, codes, length, take, replicate,
}
use nexus_fix.Types.{soh, equals}
use nexus_fix.Parser.Message
use nexus_fix.Parser.Message.{scan_positions, has_soh, check_truncation}
use nexus_fix.Parser.Vector.{
  VectorUnit, mask_of, matches, countr_zero, push, extract, tail_loop, simd_loop, scan_soh_vector,
  align, find_loop, find_vector, count_tail, seek, find_scalar, select, scan_soh, find_soh,
  find_equals, count_soh,
}
use nexus_fix.Parser.Vector.Agree.{scanners_agree}

abbrev equal_lanes : Bytes → Bytes → List Bool
equal_lanes [] ys = []
equal_lanes (x ∷ xs) [] = []
equal_lanes (x ∷ xs) (y ∷ ys) = (x == y) ∷ equal_lanes xs ys

equal_lanes-matches :
    (n c : ℕ) (bytes : Bytes)
    → n ≤ length bytes
    → mask_of (equal_lanes (take n bytes) (replicate n c)) ≡ mask_of (matches c (take n bytes))
equal_lanes-matches n c bytes h = ap mask_of (lanes n bytes h)
  where
    lanes :
        (n : ℕ) (bytes : Bytes)
        → n ≤ length bytes
        → equal_lanes (take n bytes) (replicate n c) ≡ matches c (take n bytes)
    lanes zero bytes h = refl
    lanes (suc n) [] h = absurd (omega arith)
    lanes (suc n) (b ∷ bs) h = ap (λ ls. (b == c) ∷ ls) (lanes n bs (omega arith))

abbrev lanes_unit : (width : ℕ) → VectorUnit width
lanes_unit width = record {
  Vector = Bytes;
  load = λ bytes. take width bytes;
  load_aligned = λ address bytes. take width bytes;
  broadcast = λ c. replicate width c;
  equal_mask = λ xs ys. mask_of (equal_lanes xs ys);
  load-mask = λ bytes c h. equal_lanes-matches width c bytes h;
  load_aligned-mask = λ address bytes c a h. equal_lanes-matches width c bytes h;
}

abbrev fields : Bytes
fields =
    codes "8=FIX.4.4"
    ++ soh
      ∷ (codes "9=65"
          ++ soh
            ∷ (codes "35=D"
                ++ soh
                  ∷ (codes "49=SENDER"
                      ++ soh
                        ∷ (codes "56=TARGET"
                            ++ soh
                              ∷ (codes "34=1"
                                  ++ soh
                                    ∷ (codes "11=ORDER"
                                        ++ soh
                                          ∷ (codes "55=MSFT"
                                              ++ soh ∷ (codes "10=000" ++ soh ∷ []))))))))

abbrev narrow : Option (VectorUnit 32)
narrow = some (lanes_unit 32)

positions-found :
    (scan_soh none narrow fields).positions ≡ 9 ∷ 14 ∷ 19 ∷ 29 ∷ 39 ∷ 44 ∷ 53 ∷ 61 ∷ 68 ∷ []
unfolding scan_soh select scan_soh_vector simd_loop extract push countr_zero mask_of tail_loop
positions-found = refl

-- The bytes begin at an address that is no multiple of the width.
equals-found : find_equals none narrow 45 fields 3 ≡ 11
unfolding find_equals select find_vector align find_loop countr_zero mask_of seek find_scalar
equals-found = refl

scanners_agree_example :
    scan_soh none narrow fields ≡ Message.scan_soh fields
    × find_soh none narrow 45 fields 3 ≡ find_scalar soh fields 3
    × find_equals none narrow 45 fields 3 ≡ find_scalar equals fields 3
    × count_soh none narrow fields ≡ count_tail fields 0
scanners_agree_example = scanners_agree none narrow fields 45 3
