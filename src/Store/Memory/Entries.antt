-- ===== src/Store/Memory/Entries.antt =====
-- The association list under the store: what erasing an entry and searching the minimum do to it.
use nexus_fix.Base.{
  ℕ, ◌+◌, ◌≤◌, ◌≡◌, ◌≢◌, ◌⊎◌, inl, refl, false, List, [], ◌∷◌, none, some, arith, ltb, ◌==◌,
  if◌then◌else◌, Bytes, length, is_empty,
}
use nexus_fix.Store.Memory.{find, erase, min_key, uint32_max}

abbrev pub Entries : Type 0
Entries = List (ℕ × Bytes)

-- One entry for a key.
abbrev pub Distinct : Entries → Type 0
Distinct [] = Unit {0}
Distinct ((j, v) ∷ m) = (find j m ≡ none) × Distinct m

-- No key below the bound, and none above it.
abbrev pub AtLeast : ℕ → Entries → Type 0
AtLeast b [] = Unit {0}
AtLeast b ((j, v) ∷ m) = (b ≤ j) × AtLeast b m

abbrev pub AtMost : ℕ → Entries → Type 0
AtMost b [] = Unit {0}
AtMost b ((j, v) ∷ m) = (j ≤ b) × AtMost b m

abbrev pub total : Entries → ℕ
total [] = 0
total ((j, v) ∷ m) = length v + total m

pub find-erase :
    (k j : ℕ) (m : Entries) → Distinct m → find k (erase j m) ≡ (if k == j then none else find k m)
unfolding find erase
find-erase k j [] d = ground arith
find-erase k j ((i, v) ∷ m) d = ground (arith, find-erase k j m d.1)

pub Distinct-erase : (j : ℕ) (m : Entries) → Distinct m → Distinct (erase j m)
unfolding erase
Distinct-erase j [] d = tt
Distinct-erase j ((i, v) ∷ m) d = ground (arith, Distinct-erase j m d.1, find-erase i j m d.1)

pub AtMost-erase : (b j : ℕ) (m : Entries) → AtMost b m → AtMost b (erase j m)
unfolding erase
AtMost-erase b j [] d = tt
AtMost-erase b j ((i, v) ∷ m) d = ground (arith, AtMost-erase b j m d.1)

pub AtLeast-mono : (b c : ℕ) (m : Entries) → c ≤ b → AtLeast b m → AtLeast c m
AtLeast-mono b c [] h d = tt
AtLeast-mono b c ((i, v) ∷ m) h d = (omega arith, AtLeast-mono b c m h d.1)

pub total-erase :
    (j : ℕ) (m : Entries) (v : Bytes)
    → find j m ≡ some v
    → (total (erase j m) + length v ≡ total m) × (length (erase j m) + 1 ≡ length m)
unfolding find erase
total-erase j [] v e = cc
total-erase j ((i, w) ∷ m) v e = ground (arith, total-erase j m v)

pub min_key-le : (least : ℕ) (m : Entries) → (min_key least m ≤ least) × AtLeast (min_key least m) m
unfolding min_key
min_key-le least [] = (omega arith, tt)
min_key-le least ((j, v) ∷ m) =
    let (below, all) = min_key-le (if ltb j least then j else least) m in
    (ground arith, (ground arith, all))

pub min_key-mem :
    (least : ℕ) (m : Entries) → (min_key least m ≡ least) ⊎ (find (min_key least m) m ≢ none)
unfolding min_key find
min_key-mem least [] = inl refl
min_key-mem least ((j, v) ∷ m) = ground (arith, min_key-mem (if ltb j least then j else least) m)

-- The minimum of entries that fit in 32 bits is one of their keys.
pub min_key-found :
    (m : Entries) → is_empty m ≡ false → AtMost uint32_max m → find (min_key uint32_max m) m ≢ none
unfolding find
min_key-found [] n h = cc
min_key-found ((j, v) ∷ m) n h =
    ground (arith, min_key-mem uint32_max ((j, v) ∷ m), min_key-le uint32_max ((j, v) ∷ m))

pub AtLeast-find : (b k : ℕ) (m : Entries) (v : Bytes) → AtLeast b m → find k m ≡ some v → b ≤ k
unfolding find
AtLeast-find b k [] v d e = cc
AtLeast-find b k ((j, w) ∷ m) v d e = ground (arith, AtLeast-find b k m v d.1)
