-- ===== src/Session/Gaps/Slots.antt =====
-- Which numbers the slots of a tracker cover, and what each write to the slots does to that.
use nexus_fix.Base.{
  ℕ, zero, suc, ◌+◌, ◌-◌, ◌≤◌, ◌<◌, ◌≡◌, refl, ap, ◌∙◌, Bool, false, ◌&&◌, ◌||◌, List, [], ◌∷◌,
  ◌++◌, none, some, sym, inl, inr, arith, leb, ltb, ◌==◌, if◌then◌else◌, length, get_elem?, get_or,
  set, take, Bool-cases, length-append, length-set,
}
use native.Mathlib.Numerals.{add-one}
use nexus_fix.Session.Gaps.{Gap, no_gap, remove_gap}

abbrev pub holds : Gap → ℕ → Bool
holds g x = leb g.begin x && leb x g.end

-- The number lies in one of the gaps.
unfoldable pub covers : List Gap → ℕ → Bool
covers [] x = false
covers (g ∷ gs) x = holds g x || covers gs x

pub covers-append :
    (gs : List Gap) (h : Gap) (x : ℕ) → covers (gs ++ h ∷ []) x ≡ (covers gs x || holds h x)
unfolding covers
covers-append [] h x = ground arith
covers-append (g ∷ gs) h x = ground (arith, covers-append gs h x)

-- Replacing a gap by one that agrees on `x` changes nothing at `x`.
pub covers-set :
    (gs : List Gap) (i : ℕ) (g h : Gap) (x : ℕ)
    → get_elem? gs i ≡ some g
    → holds h x ≡ holds g x
    → covers (set gs i h) x ≡ covers gs x
unfolding covers
covers-set [] i g h x e s = refl
covers-set (y ∷ gs) zero g h x e s = ground arith
covers-set (y ∷ gs) (suc i) g h x e s = ground (arith, covers-set gs i g h x e s)

-- Overwriting a gap that does not hold `x`.
covers_overwrite :
    (gs : List Gap) (i : ℕ) (g h : Gap) (x : ℕ)
    → get_elem? gs i ≡ some g
    → holds g x ≡ false
    → covers (set gs i h) x ≡ (covers gs x || holds h x)
unfolding covers
covers_overwrite [] i g h x e s = cc
covers_overwrite (y ∷ gs) zero g h x e s = ground arith
covers_overwrite (y ∷ gs) (suc i) g h x e s = ground (arith, covers_overwrite gs i g h x e s)

take-append : (gs hs : List Gap) (k : ℕ) → k ≡ length gs → take k (gs ++ hs) ≡ gs
take-append [] hs zero e = refl
take-append [] hs (suc k) e = absurd (omega arith)
take-append (g ∷ gs) hs zero e = absurd (omega arith)
take-append (g ∷ gs) hs (suc k) e = ap (◌∷◌ g) (take-append gs hs k (omega arith))

get_or-append : (gs : List Gap) (h d : Gap) (k : ℕ) → k ≡ length gs → get_or (gs ++ h ∷ []) k d ≡ h
get_or-append [] h d zero e = refl
get_or-append [] h d (suc k) e = absurd (omega arith)
get_or-append (g ∷ gs) h d zero e = absurd (omega arith)
get_or-append (g ∷ gs) h d (suc k) e = get_or-append gs h d k (omega arith)

set-append :
    (gs hs : List Gap) (i : ℕ) (v : Gap) → i < length gs → set (gs ++ hs) i v ≡ set gs i v ++ hs
set-append [] hs i v h = absurd (omega arith)
set-append (g ∷ gs) hs zero v h = refl
set-append (g ∷ gs) hs (suc i) v h = ap (◌∷◌ g) (set-append gs hs i v (omega arith))

-- A list that is not empty, as its last entry behind the others.
data Snoc : List Gap → Type 0 where
  nil : Snoc []
  snoc : (gs : List Gap) (g : Gap) → Snoc (gs ++ g ∷ [])

Snoc-view : (gs : List Gap) → Snoc gs
Snoc-view [] = nil
Snoc-view (g ∷ gs) = extend g (Snoc-view gs)
  where
    extend : (g : Gap) {hs : List Gap} → Snoc hs → Snoc (g ∷ hs)
    extend g nil = snoc [] g
    extend g (snoc hs h) = snoc (g ∷ hs) h

remove_gap-snoc :
    (gs : List Gap) (g : Gap) (i : ℕ)
    → remove_gap (gs ++ g ∷ []) i ≡ (if ltb i (length gs) then set gs i g else gs)
unfolding remove_gap
remove_gap-snoc gs g i =
    let last : length (gs ++ g ∷ []) - 1 ≡ length gs = omega (arith, length-append gs (g ∷ [])) in
    rw last (elim (Bool-cases (ltb i (length gs))) [
      | inl below ↦ rw below (
          rw (get_or-append gs g no_gap (length gs) refl) (
            rw (set-append gs (g ∷ []) i g (ground arith))
              (take-append (set gs i g) (g ∷ []) (length gs) (sym (length-set gs i g)))))
      | inr above ↦ rw above (take-append gs (g ∷ []) (length gs) refl)
    ])

get_elem?-append :
    (gs : List Gap) (h : Gap) (i : ℕ)
    → get_elem? (gs ++ h ∷ []) i
      ≡ (if ltb i (length gs) then get_elem? gs i else if i == length gs then some h else none)
get_elem?-append [] h zero = refl
get_elem?-append [] h (suc i) = ground arith
get_elem?-append (g ∷ gs) h zero = ground arith
get_elem?-append (g ∷ gs) h (suc i) = ground (arith, get_elem?-append gs h i)

-- Removing a gap that does not hold `x`.
pub covers-remove_gap :
    (gs : List Gap) (i : ℕ) (g : Gap) (x : ℕ)
    → get_elem? gs i ≡ some g
    → holds g x ≡ false
    → covers (remove_gap gs i) x ≡ covers gs x
covers-remove_gap gs i g x e s = go (Snoc-view gs) e
  where
    go :
        {hs : List Gap}
        → Snoc hs
        → get_elem? hs i ≡ some g
        → covers (remove_gap hs i) x ≡ covers hs x
    go nil e = cc
    go (snoc hs h) e =
        rw (remove_gap-snoc hs h i, covers-append hs h x)
          (ground (arith, get_elem?-append hs h i, covers_overwrite hs i g h x))

-- The slots before slot `i` do not hold `s`.
abbrev pub covers_before : List Gap → ℕ → ℕ → Bool
covers_before gs i s = covers (take i gs) s

pub take-set : (gs : List Gap) (i : ℕ) (v : Gap) → take i (set gs i v) ≡ take i gs
take-set [] i v = refl
take-set (g ∷ gs) zero v = refl
take-set (g ∷ gs) (suc i) v = ap (◌∷◌ g) (take-set gs i v)

pub take-append_le : (gs hs : List Gap) (i : ℕ) → i ≤ length gs → take i (gs ++ hs) ≡ take i gs
take-append_le gs hs zero h = refl
take-append_le [] hs (suc i) h = absurd (omega arith)
take-append_le (g ∷ gs) hs (suc i) h = ap (◌∷◌ g) (take-append_le gs hs i (omega arith))

pub take_all : (gs : List Gap) (i : ℕ) → get_elem? gs i ≡ none → take i gs ≡ gs
take_all [] zero e = refl
take_all [] (suc i) e = refl
take_all (g ∷ gs) zero e = cc
take_all (g ∷ gs) (suc i) e = ap (◌∷◌ g) (take_all gs i e)

pub take-remove_gap : (gs : List Gap) (i : ℕ) → i < length gs → take i (remove_gap gs i) ≡ take i gs
take-remove_gap gs i e = go (Snoc-view gs) e
  where
    go : {hs : List Gap} → Snoc hs → i < length hs → take i (remove_gap hs i) ≡ take i hs
    go nil e = absurd (omega arith)
    go (snoc hs h) e =
        let fits : i ≤ length hs = omega (arith, length-append hs (h ∷ [])) in
        rw (remove_gap-snoc hs h i, take-append_le hs (h ∷ []) i fits)
          (ground (arith, take-set hs i h))

pub length-remove_gap :
    (gs : List Gap) (i : ℕ) → i < length gs → length (remove_gap gs i) + 1 ≡ length gs
length-remove_gap gs i e = go (Snoc-view gs) e
  where
    go : {hs : List Gap} → Snoc hs → i < length hs → length (remove_gap hs i) + 1 ≡ length hs
    go nil e = absurd (omega arith)
    go (snoc hs h) e =
        rw (remove_gap-snoc hs h i, length-append hs (h ∷ [])) (ground (arith, length-set hs i h))

pub covers-take-suc :
    (gs : List Gap) (i : ℕ) (g : Gap) (x : ℕ)
    → get_elem? gs i ≡ some g
    → covers (take (suc i) gs) x ≡ (covers (take i gs) x || holds g x)
unfolding covers
covers-take-suc [] i g x e = cc
covers-take-suc (y ∷ gs) zero g x e = ground arith
covers-take-suc (y ∷ gs) (suc i) g x e = ground (arith, covers-take-suc gs i g x e)

pub get_elem?-lt : (gs : List Gap) (i : ℕ) (g : Gap) → get_elem? gs i ≡ some g → i < length gs
get_elem?-lt [] i g e = cc
get_elem?-lt (y ∷ gs) zero g e = omega arith
get_elem?-lt (y ∷ gs) (suc i) g e = omega (arith, get_elem?-lt gs i g e)

pub get_elem?-set_self :
    (gs : List Gap) (i : ℕ) (g v : Gap)
    → get_elem? gs i ≡ some g
    → get_elem? (set gs i v) i ≡ some v
get_elem?-set_self [] i g v e = cc
get_elem?-set_self (y ∷ gs) zero g v e = refl
get_elem?-set_self (y ∷ gs) (suc i) g v e = get_elem?-set_self gs i g v e

pub covers-take_next :
    (gs : List Gap) (i : ℕ) (g : Gap) (x : ℕ)
    → get_elem? gs i ≡ some g
    → covers (take (i + 1) gs) x ≡ (covers (take i gs) x || holds g x)
covers-take_next gs i g x e = rw add-one (covers-take-suc gs i g x e)

-- A gap replaced by one of its parts, the other part put behind the last slot.
pub covers_split :
    (gs : List Gap) (i : ℕ) (g v h : Gap) (x : ℕ)
    → get_elem? gs i ≡ some g
    → (holds v x || holds h x) ≡ holds g x
    → covers (set (gs ++ h ∷ []) i v) x ≡ covers gs x
unfolding covers
covers_split [] i g v h x e s = cc
covers_split (y ∷ gs) zero g v h x e s = ground (arith, covers-append gs h x)
covers_split (y ∷ gs) (suc i) g v h x e s = ground (arith, covers_split gs i g v h x e s)

-- The slots up to slot `i`, once that slot is overwritten by a gap that does not hold `x`.
pub covers_before-set :
    (gs : List Gap) (i : ℕ) (g v : Gap) (x : ℕ)
    → get_elem? gs i ≡ some g
    → holds v x ≡ false
    → covers_before (set gs i v) (i + 1) x ≡ covers_before gs i x
covers_before-set gs i g v x e n =
    covers-take_next (set gs i v) i v x (get_elem?-set_self gs i g v e)
    ∙ rw (take-set gs i v) (ground arith)

pub covers_before-split :
    (gs : List Gap) (i : ℕ) (g v h : Gap) (x : ℕ)
    → get_elem? gs i ≡ some g
    → holds v x ≡ false
    → covers_before (set (gs ++ h ∷ []) i v) (i + 1) x ≡ covers_before gs i x
covers_before-split gs i g v h x e n =
    covers_before-set (gs ++ h ∷ []) i g v x
      (ground (arith, get_elem?-append gs h i, get_elem?-lt gs i g e)) n
    ∙ rw (take-append_le gs (h ∷ []) i (omega (arith, get_elem?-lt gs i g e)))
