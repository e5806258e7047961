-- ===== src/Session/Gaps.antt =====
-- include/nexusfix/session/sequence.hpp, class GapTracker. The list holds the first `count_` slots
-- of the array; the slots behind them are never read.
pub mod Slots
pub mod Fill
use nexus_fix.Base.{
  ℕ, zero, suc, ◌+◌, ◌-◌, Bool, true, false, ◌&&◌, List, [], ◌∷◌, ◌++◌, Option, none, some, leb,
  ltb, ◌==◌, if◌then◌else◌, length, get_elem?, get_or, set, take,
}

abbrev pub max_gaps : ℕ
max_gaps = 32

pub record Gap : Type 0 where
  pub begin : ℕ
  pub end : ℕ

abbrev pub no_gap : Gap
no_gap = record { begin = 0; end = 0 }

pub record GapTracker : Type 0 where
  pub gaps : List Gap
  pub truncated : Bool

abbrev pub empty_tracker : GapTracker
empty_tracker = record { gaps = []; truncated = false }

unfoldable pub add_gap : GapTracker → ℕ → ℕ → Bool × GapTracker
add_gap t begin end =
    if leb max_gaps (length t.gaps)
    then (false, record t { truncated = true })
    else (true, record t { gaps = t.gaps ++ record { begin = begin; end = end } ∷ [] })

-- The last slot takes the place of slot `idx`, and the count falls by one.
unfoldable pub remove_gap : List Gap → ℕ → List Gap
remove_gap gaps idx =
    let last = length gaps - 1 in
    if ltb idx last then take last (set gaps idx (get_or gaps last no_gap)) else take last gaps

-- What one round of `fill` does at slot `i`: the new tracker, and the next slot. The increments run
-- only below `gap.end`, an `uint32_t`, so they cannot wrap.
unfoldable pub fill_round : GapTracker → ℕ → ℕ → Gap → GapTracker × ℕ
fill_round t seq_num i gap =
    if leb gap.begin seq_num && leb seq_num gap.end
    then (if seq_num == gap.begin && seq_num == gap.end
        then (record t { gaps = remove_gap t.gaps i }, i)
        else if seq_num == gap.begin
        then (record t { gaps = set t.gaps i (record gap { begin = gap.begin + 1 }) }, i + 1)
        else if seq_num == gap.end
        then (record t { gaps = set t.gaps i (record gap { end = gap.end - 1 }) }, i + 1)
        else if ltb (length t.gaps) max_gaps
        then (
          record t {
            gaps =
                set (t.gaps ++ record { begin = seq_num + 1; end = gap.end } ∷ []) i
                  (record gap { end = seq_num - 1 });
          },
          i + 1,
        )
        else (record t { truncated = true }, i + 1))
    else (t, i + 1)

-- The loop of `fill` from slot `i` on; `none` when the fuel runs out.
unfoldable pub fill_loop : ℕ → GapTracker → ℕ → ℕ → Option GapTracker
fill_loop zero t seq_num i = none
fill_loop (suc fuel) t seq_num i = elim (get_elem? t.gaps i) [
  | none ↦ some t
  | some gap ↦ fill_loop fuel (fill_round t seq_num i gap).0 seq_num (fill_round t seq_num i gap).1
]

-- Each round leaves fewer slots to visit or fewer free ones, so this fuel is enough.
abbrev pub fill_fuel : ℕ
fill_fuel = 128

unfoldable pub fill : GapTracker → ℕ → Option GapTracker
fill t seq_num = fill_loop fill_fuel t seq_num 0

unfoldable pub has_gaps : GapTracker → Bool
has_gaps t = ltb 0 (length t.gaps)

abbrev pub gap_count : GapTracker → ℕ
gap_count t = length t.gaps

unfoldable pub get_gap : GapTracker → ℕ → Option Gap
get_gap t idx = if ltb idx (length t.gaps) then get_elem? t.gaps idx else none

unfoldable pub clear : GapTracker → GapTracker
clear t = empty_tracker
