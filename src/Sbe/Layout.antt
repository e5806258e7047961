-- ===== src/Sbe/Layout.antt =====
-- A write at an offset of a buffer, as the fields of the buffer see it.
use nexus_fix.Base.{
  ℕ, zero, suc, ◌+◌, ◌-◌, ◌/◌, ◌%◌, ◌^◌, ◌≤◌, ◌<◌, ◌≡◌, refl, ap, ◌∙◌, Bool, true, ◌&&◌, ◌||◌, List,
  [], ◌∷◌, Bytes, leb, if◌then◌else◌, length, drop, arith,
}
use nexus_fix.Base.Words.{ℤ, pos, negsuc}
use nexus_fix.Sbe.Bytes.{
  overwrite, slice, read_le, write_le, to_u64, to_i64, read_int64, write_int64,
}
use mathlib.Core.Path.{ap₂}
use native.Mathlib.Nat.{pow-succ'}

pub length-overwrite : (o : ℕ) (bs buffer : Bytes) → length (overwrite o bs buffer) ≡ length buffer
unfolding overwrite
length-overwrite o bs [] = refl
length-overwrite zero [] (x ∷ buffer) = refl
length-overwrite zero (b ∷ bs) (x ∷ buffer) = ap suc (length-overwrite zero bs buffer)
length-overwrite (suc o) bs (x ∷ buffer) = ap suc (length-overwrite o bs buffer)

drop-overwrite :
    (o : ℕ) (bs buffer : Bytes) → drop o (overwrite o bs buffer) ≡ overwrite 0 bs (drop o buffer)
unfolding overwrite
drop-overwrite zero bs buffer = refl
drop-overwrite (suc o) bs [] = refl
drop-overwrite (suc o) bs (x ∷ buffer) = drop-overwrite o bs buffer

-- A slice that ends before the write.
slice-before :
    (off n o : ℕ) (bs buffer : Bytes)
    → off + n ≤ o
    → slice off n (overwrite o bs buffer) ≡ slice off n buffer
unfolding overwrite
slice-before off n o bs [] h = refl
slice-before zero zero o bs (x ∷ buffer) h = refl
slice-before zero (suc n) zero bs (x ∷ buffer) h = absurd (omega arith)
slice-before zero (suc n) (suc o) bs (x ∷ buffer) h =
    ap (◌∷◌ x) (slice-before zero n o bs buffer (omega arith))
slice-before (suc off) n zero bs (x ∷ buffer) h = absurd (omega arith)
slice-before (suc off) n (suc o) bs (x ∷ buffer) h = slice-before off n o bs buffer (omega arith)

-- A slice that begins behind the write.
slice-behind :
    (off n o : ℕ) (bs buffer : Bytes)
    → o + length bs ≤ off
    → slice off n (overwrite o bs buffer) ≡ slice off n buffer
unfolding overwrite
slice-behind off n o bs [] h = refl
slice-behind off n zero [] (x ∷ buffer) h = refl
slice-behind zero n zero (b ∷ bs) (x ∷ buffer) h = absurd (omega arith)
slice-behind (suc off) n zero (b ∷ bs) (x ∷ buffer) h =
    slice-behind off n zero bs buffer (omega arith)
slice-behind zero n (suc o) bs (x ∷ buffer) h = absurd (omega arith)
slice-behind (suc off) n (suc o) bs (x ∷ buffer) h = slice-behind off n o bs buffer (omega arith)

-- A slice inside the write, `k` bytes behind its start.
slice-within :
    (off k n o : ℕ) (bs buffer : Bytes)
    → off ≡ o + k
    → k + n ≤ length bs
    → o + length bs ≤ length buffer
    → slice off n (overwrite o bs buffer) ≡ slice k n bs
unfolding overwrite
slice-within off k zero o bs buffer e h1 h2 = refl
slice-within off k (suc n) o bs [] e h1 h2 = absurd (omega arith)
slice-within off k (suc n) zero [] (x ∷ buffer) e h1 h2 = absurd (omega arith)
slice-within zero (suc k) (suc n) zero (b ∷ bs) (x ∷ buffer) e h1 h2 = absurd (omega arith)
slice-within (suc off) zero (suc n) zero (b ∷ bs) (x ∷ buffer) e h1 h2 = absurd (omega arith)
slice-within zero zero (suc n) zero (b ∷ bs) (x ∷ buffer) e h1 h2 =
    ap (◌∷◌ b) (slice-within zero zero n zero bs buffer (omega arith) (omega arith) (omega arith))
slice-within (suc off) (suc k) (suc n) zero (b ∷ bs) (x ∷ buffer) e h1 h2 =
    slice-within off k (suc n) zero bs buffer (omega arith) (omega arith) (omega arith)
slice-within zero k (suc n) (suc o) bs (x ∷ buffer) e h1 h2 = absurd (omega arith)
slice-within (suc off) k (suc n) (suc o) bs (x ∷ buffer) e h1 h2 =
    slice-within off k (suc n) o bs buffer (omega arith) (omega arith) (omega arith)

-- A layout lists offsets and sizes. After a write of `w` bytes at `o`, a field lies outside of the write
-- or inside it.
abbrev pub outside : ℕ → ℕ → ℕ × ℕ → Bool
outside o w (off, n) = leb (off + n) o || leb (o + w) off

abbrev pub inside : ℕ → ℕ → ℕ × ℕ → Bool
inside o w (off, n) = leb o off && leb (off + n) (o + w)

abbrev pub slices : List (ℕ × ℕ) → Bytes → List Bytes
slices [] buffer = []
slices ((off, n) ∷ layout) buffer = slice off n buffer ∷ slices layout buffer

abbrev pub spliced : ℕ → ℕ → Bytes → Bytes → List (ℕ × ℕ) → List Bytes
spliced o w bs buffer [] = []
spliced o w bs buffer ((off, n) ∷ layout) =
    (if outside o w (off, n) then slice off n buffer else slice (off - o) n bs)
    ∷ spliced o w bs buffer layout

abbrev pub clean : ℕ → ℕ → List (ℕ × ℕ) → Bool
clean o w [] = true
clean o w ((off, n) ∷ layout) = (outside o w (off, n) || inside o w (off, n)) && clean o w layout

slice-overwrite :
    (off n o w : ℕ) (bs buffer : Bytes)
    → length bs ≡ w
    → o + w ≤ length buffer
    → (outside o w (off, n) || inside o w (off, n)) ≡ true
    → slice off n (overwrite o bs buffer)
      ≡ (if outside o w (off, n) then slice off n buffer else slice (off - o) n bs)
slice-overwrite off n o w bs buffer e h c = ground (
  arith,
  slice-before off n o bs buffer,
  slice-behind off n o bs buffer,
  slice-within off (off - o) n o bs buffer,
)

pub slices-overwrite :
    (layout : List (ℕ × ℕ)) (o w : ℕ) (bs buffer : Bytes)
    → length bs ≡ w
    → o + w ≤ length buffer
    → clean o w layout ≡ true
    → slices layout (overwrite o bs buffer) ≡ spliced o w bs buffer layout
slices-overwrite [] o w bs buffer e h c = refl
slices-overwrite ((off, n) ∷ layout) o w bs buffer e h c =
    ap₂ ◌∷◌ (slice-overwrite off n o w bs buffer e h (ground arith))
      (slices-overwrite layout o w bs buffer e h (ground arith))

pub length-write_le : (size value : ℕ) → length (write_le size value) ≡ size
length-write_le zero value = refl
length-write_le (suc size) value = ap suc (length-write_le size (value / 256))

pub read_le-write_le : (size value : ℕ) → value < 256 ^ size → read_le (write_le size value) ≡ value
read_le-write_le zero value h = omega arith
read_le-write_le (suc size) value h = omega (
  arith,
  pow-succ' 256 size,
  read_le-write_le size (value / 256) (omega (arith, pow-succ' 256 size)),
)

-- Every `int64_t` is read back.
abbrev pub IsInt64 : ℤ → Type 0
IsInt64 (pos n) = n < 2 ^ 63
IsInt64 (negsuc n) = n < 2 ^ 63

to_i64-to_u64 : (v : ℤ) → IsInt64 v → to_i64 (to_u64 v) ≡ v
to_i64-to_u64 (pos n) h = let same : n % 2 ^ 64 ≡ n = omega arith in rw same (ground arith)
to_i64-to_u64 (negsuc n) h =
    let same : n % 2 ^ 64 ≡ n = omega arith in
    let back : 2 ^ 64 - 1 - (2 ^ 64 - 1 - n) ≡ n = omega arith in
    rw same (ground (arith, ap negsuc back))

to_u64-lt : (v : ℤ) → to_u64 v < 256 ^ 8
to_u64-lt (pos n) = omega arith
to_u64-lt (negsuc n) = omega arith

pub read_int64-write_int64 : (v : ℤ) → IsInt64 v → read_int64 (write_int64 v) ≡ v
read_int64-write_int64 v h =
    ap to_i64 (read_le-write_le 8 (to_u64 v) (to_u64-lt v)) ∙ to_i64-to_u64 v h
