-- ===== src/Session/Gaps/Fill.antt =====
-- `GapTracker::fill`: its loop ends, it takes the filled number out of the tracked gaps, and it
-- loses no other number.
use nexus_fix.Base.{
  ℕ, zero, suc, ◌+◌, ◌-◌, ◌*◌, ◌≤◌, ◌<◌, ◌≡◌, ◌≢◌, refl, ◌∙◌, Bool, true, not, ◌||◌, [], ◌∷◌, ◌++◌,
  some, inl, inr, arith, ltb, if◌then◌else◌, length, get_elem?, Option-cases, length-append,
  length-set,
}
use nexus_fix.Session.Gaps.Slots.{
  holds, covers, covers-append, covers-set, covers-remove_gap, covers_before, take_all,
  take-remove_gap, length-remove_gap, get_elem?-lt, covers-take_next, covers_split,
  covers_before-set, covers_before-split,
}
use nexus_fix.Session.Gaps.{
  Gap, GapTracker, max_gaps, fill_round, fill_loop, fill_fuel, fill, add_gap,
}

-- Falls in every round: a slot is passed or freed, and a split takes one of the free slots.
abbrev measure : GapTracker → ℕ → ℕ
measure t i = 2 * (length t.gaps - i) + (max_gaps - length t.gaps)

-- Either a split was refused, or the slots passed so far do not hold the filled number.
abbrev passed : GapTracker → ℕ → ℕ → Bool
passed t s i = t.truncated || not (covers_before t.gaps i s)

module _ (t : GapTracker) (s i : ℕ) (g : Gap) (here : get_elem? t.gaps i ≡ some g)
    (fits : length t.gaps ≤ max_gaps) where
  round_measure :
      (length (fill_round t s i g).0.gaps ≤ max_gaps)
      × (measure (fill_round t s i g).0 (fill_round t s i g).1 < measure t i)
  unfolding fill_round
  round_measure = ground (
    arith,
    get_elem?-lt t.gaps i g here,
    length-remove_gap t.gaps i,
    length-set t.gaps i (record g { begin = g.begin + 1 }),
    length-set t.gaps i (record g { end = g.end - 1 }),
    length-set (t.gaps ++ record { begin = s + 1; end = g.end } ∷ []) i (record g { end = s - 1 }),
    length-append t.gaps (record { begin = s + 1; end = g.end } ∷ []),
  )

  round_covers : (x : ℕ) → x ≢ s → covers (fill_round t s i g).0.gaps x ≡ covers t.gaps x
  unfolding fill_round
  round_covers x ne = ground (
    arith,
    covers-remove_gap t.gaps i g x here,
    covers-set t.gaps i g (record g { begin = g.begin + 1 }) x here,
    covers-set t.gaps i g (record g { end = g.end - 1 }) x here,
    covers_split t.gaps i g (record g { end = s - 1 }) (record { begin = s + 1; end = g.end }) x
        here,
  )

  round_passed : passed t s i ≡ true → passed (fill_round t s i g).0 s (fill_round t s i g).1 ≡ true
  unfolding fill_round
  round_passed p = ground (
    arith,
    take-remove_gap t.gaps i (get_elem?-lt t.gaps i g here),
    covers_before-set t.gaps i g (record g { begin = g.begin + 1 }) s here,
    covers_before-set t.gaps i g (record g { end = g.end - 1 }) s here,
    covers_before-split t.gaps i g (record g { end = s - 1 })
        (record { begin = s + 1; end = g.end }) s here,
    covers-take_next t.gaps i g s here,
  )

-- What the loop guarantees, whatever slots it has passed.
record Filled (s : ℕ) (t t' : GapTracker) : Type 0 where
  fits : length t'.gaps ≤ max_gaps
  others : (x : ℕ) → x ≢ s → covers t'.gaps x ≡ covers t.gaps x
  gone : (t'.truncated || not (covers t'.gaps s)) ≡ true

fill_loop-Filled :
    (fuel : ℕ) (t : GapTracker) (s i : ℕ)
    → length t.gaps ≤ max_gaps
    → measure t i < fuel
    → passed t s i ≡ true
    → (t' : GapTracker) × (fill_loop fuel t s i ≡ some t') × Filled s t t'
unfolding fill_loop
fill_loop-Filled zero t s i fits m p = absurd (omega arith)
fill_loop-Filled (suc fuel) t s i fits m p = elim (Option-cases (get_elem? t.gaps i)) [
  | inl end ↦ (
    t,
    rw (end, fill_loop),
    record { fits = fits; others = λ x ne. refl; gone = rw (take_all t.gaps i end) at p },
  )
  | inr (g, here) ↦
      let (fits', falls) = round_measure t s i g here fits in
      let (t', run, done) =
        fill_loop-Filled fuel (fill_round t s i g).0 s (fill_round t s i g).1 fits' (omega arith)
          (round_passed t s i g here fits p) in
      (
        t',
        rw (here, fill_loop) run,
        record {
          fits = done.fits;
          others = λ x ne. done.others x ne ∙ round_covers t s i g here fits x ne;
          gone = done.gone;
        },
      )
]

-- In a tracker that is within its slots, filling a number `s` always ends, keeps the tracker
-- within its slots, and changes nothing about any other number `x`. The number itself is
-- tracked no more, unless the tracker reports that it lost information.
pub fill_correct :
    (t : GapTracker) (s x : ℕ)
    → length t.gaps ≤ max_gaps
    → x ≢ s
    → (t' : GapTracker) × (fill t s ≡ some t')
      × (length t'.gaps ≤ max_gaps)
      × (covers t'.gaps x ≡ covers t.gaps x)
      × ((t'.truncated || not (covers t'.gaps s)) ≡ true)
unfolding fill covers
fill_correct t s x h ne =
    let (t', run, done) = fill_loop-Filled fill_fuel t s 0 h (omega arith) (ground arith) in
    (t', run, done.fits, done.others x ne, done.gone)

-- Adding a gap tracks its numbers beside those tracked before or, at full slots, changes
-- nothing about the numbers tracked.
pub add_gap-covers :
    (t : GapTracker) (begin end x : ℕ)
    → covers (add_gap t begin end).1.gaps x ≡ (
        if ltb (length t.gaps) max_gaps
        then covers t.gaps x || holds (record { begin = begin; end = end }) x
        else covers t.gaps x)
unfolding add_gap
add_gap-covers t begin end x =
    ground (arith, covers-append t.gaps (record { begin = begin; end = end }) x)
