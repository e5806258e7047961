-- ===== src/Parser/Boundary/Bounds.antt =====
-- What the boundaries of find_message_boundary in include/nexusfix/parser/simd_scanner.hpp enclose.
use nexus_fix.Base.{
  ℕ, zero, suc, ◌+◌, ◌-◌, ◌≤◌, ◌<◌, ◌≡◌, refl, sym, ap, ◌∙◌, inl, inr, Bool, true, false, not, ◌&&◌,
  ◌||◌, [], ◌∷◌, Option, arith, ltb, leb, ◌==◌, if◌then◌else◌, Bytes, length, drop, Bool-cases,
  lt→ltb,
}
use mathlib.Core.Bool.{false≢true}
use nexus_fix.Types.{soh}
use nexus_fix.Parser.Frame.{at}
use nexus_fix.Parser.Vector.{seek}
use nexus_fix.Parser.Boundary.Declared.{LengthAgrees, length_agrees-LengthAgrees}
use nexus_fix.Parser.Boundary.{
  MessageBoundary, soh_from, starts_message, is_trailer, behind_soh, find_start, search_end,
  no_trailer, is_candidate, length_agrees, find_end, find_length, find_message_boundary,
}

suc_plus : (n k : ℕ) → suc (n + k) ≡ suc n + k
suc_plus n k = omega arith

one_back : (n : ℕ) → n + 1 - 1 ≡ n
one_back n = omega arith

pub at-drop : (n k : ℕ) (bytes : Bytes) → at (drop n bytes) k ≡ at bytes (n + k)
at-drop zero k bytes = ap (at bytes) (omega arith)
at-drop (suc n) k [] = refl
at-drop (suc n) k (c ∷ cs) = at-drop n k cs ∙ ap (at (c ∷ cs)) (suc_plus n k)

pub length-drop : (n : ℕ) (bytes : Bytes) → length (drop n bytes) ≡ length bytes - n
length-drop zero bytes = omega arith
length-drop (suc n) [] = omega arith
length-drop (suc n) (c ∷ cs) = length-drop n cs ∙ omega arith

-- A search that ends before the end of the bytes ends at an SOH.
seek-found :
    (cs : Bytes) (i : ℕ)
    → (n : ℕ) × (seek soh cs i ≡ i + n × (n ≤ length cs × (n < length cs → at cs n ≡ soh)))
unfolding seek
seek-found [] i = (0, (omega arith, (omega arith, λ h. absurd (omega (arith, h)))))
seek-found (c ∷ cs) i = elim (Bool-cases (c == soh)) [
  | inl e ↦ (0, (rw e (omega arith), (omega arith, λ h. ground arith)))
  | inr e ↦
      let (n, (place, (within, found))) = seek-found cs (i + 1) in
      (suc n, (rw e (omega (arith, place)), (omega (arith, within), λ h. found (omega (arith, h)))))
]

begins_where :
    {near : Bool} (begins : Bool) → near ≡ true → near && not begins ≡ false → begins ≡ true
begins_where begins h e = ground arith

and_left : (a b : Bool) → a && b ≡ true → a ≡ true
and_left a b h = ground arith

and_right : (a b : Bool) → a && b ≡ true → b ≡ true
and_right a b h = ground arith

module _ (bytes : Bytes) where
  pub soh_from-found :
      (i : ℕ)
      → i ≤ length bytes
      → i ≤ soh_from bytes i
        × (soh_from bytes i ≤ length bytes
            × (soh_from bytes i < length bytes → at bytes (soh_from bytes i) ≡ soh))
  soh_from-found i h =
      let (n, (place, (within, found))) = seek-found (drop i bytes) i in
      let size = length-drop i bytes in
      (
        omega (arith, place),
        (
          omega (arith, place, within, size, h),
          λ k.
              ap (at bytes) place
              ∙ (sym (at-drop i n bytes) ∙ found (omega (arith, place, size, k, h))),
        ),
      )

  -- What is read of the body length of the message at `start`.
  abbrev pub declared_length : ℕ → Option (ℕ × ℕ)
  declared_length start = find_length bytes (length bytes) (search_end bytes start) start

  -- The bytes from `start` up to `end` begin like a message and end with a trailer; a body length that
  -- is declared is that of the bytes, modulo 2^64.
  pub record IsMessage (start end : ℕ) : Type 0 where
    pub begins : starts_message bytes start ≡ true
    pub trailer : ℕ
    pub in_order : start + 20 ≤ trailer
    pub ends : is_trailer bytes trailer ≡ true
    pub behind : trailer + 4 < end
    pub agrees : LengthAgrees bytes start (search_end bytes start) trailer
    pub last : at bytes (end - 1) ≡ soh
    pub within : end ≤ length bytes

  pub record IsBoundary (b : MessageBoundary) : Type 0 where
    pub moves_on : (b.complete || b.corrupt) ≡ true → 0 < b.end
    pub in_bounds : b.end ≤ length bytes
    pub message : b.complete ≡ true → IsMessage b.start b.end

  behind_soh-moves :
      (i fuel : ℕ)
      → i ≤ length bytes
      → length bytes ≤ i + suc fuel
      → behind_soh bytes i ≤ length bytes × length bytes ≤ behind_soh bytes i + fuel
  behind_soh-moves i fuel h k =
      let (after, (inside, found)) = soh_from-found i h in
      elim (Bool-cases (ltb (soh_from bytes i) (length bytes))) [
        | inl e ↦ rw e (ground arith, omega (arith, after, k))
        | inr e ↦ rw e (inside, ground arith)
      ]

  find_start-begins :
      (fuel i : ℕ)
      → length bytes ≤ i + fuel
      → i ≤ length bytes
      → find_start bytes fuel i + 5 < length bytes
      → starts_message bytes (find_start bytes fuel i) ≡ true
  unfolding find_start
  find_start-begins zero i h k b = absurd (omega (arith, h, b))
  find_start-begins (suc fuel) i h k b =
      elim (Bool-cases (ltb (i + 5) (length bytes) && not (starts_message bytes i))) [
        | inr ended ↦
            let near : i + 5 < length bytes = rw ended at b in
            rw ended
              (begins_where (starts_message bytes i) (lt→ltb (i + 5) (length bytes) near) ended)
        | inl more ↦
            let (inside, enough) = behind_soh-moves i fuel k h in
            rw more (find_start-begins fuel (behind_soh bytes i) enough inside (rw more at b))
      ]

  no_trailer-IsBoundary :
      (start first : ℕ) → first ≤ length bytes → IsBoundary (no_trailer start first)
  unfolding no_trailer
  no_trailer-IsBoundary start first h = elim (Bool-cases (ltb 0 first)) [
    | inl e ↦ rw e (record {
      moves_on = λ c. ground arith;
      in_bounds = h;
      message = λ c. absurd (false≢true c);
    })
    | inr e ↦ rw e (record {
      moves_on = λ c. absurd (false≢true c);
      in_bounds = omega arith;
      message = λ c. absurd (false≢true c);
    })
  ]

  first-within :
      (last i first : ℕ)
      → last ≤ length bytes
      → first ≤ length bytes
      → (if is_candidate bytes last i && first == 0 then soh_from bytes (i + 4) + 1 else first)
        ≤ length bytes
  first-within last i first l h = elim (Bool-cases (is_candidate bytes last i && first == 0)) [
    | inr e ↦ rw e h
    | inl e ↦ rw e (ground arith)
  ]

  search_end-within : (start : ℕ) → search_end bytes start ≤ length bytes
  search_end-within start = ground arith

  search_end-near : (start : ℕ) → search_end bytes start ≤ start + 65536
  search_end-near start = ground arith

  accepted :
      (start last i : ℕ)
      → starts_message bytes start ≡ true
      → last ≤ length bytes
      → start + 20 ≤ i
      → is_candidate bytes last i ≡ true
      → i + 7 < last
      → length_agrees (declared_length start) i ≡ true
      → IsBoundary (record {
        start = start;
        end = soh_from bytes (i + 4) + 1;
        complete = true;
        corrupt = false;
      })
  accepted start last i s l o c e a =
      let (after, (inside, found)) = soh_from-found (i + 4) (omega arith) in
      let before : soh_from bytes (i + 4) < last = ground arith in
      record {
        moves_on = λ k. omega arith;
        in_bounds = omega (arith, before, l);
        message = λ k. record {
          begins = s;
          trailer = i;
          in_order = o;
          ends = and_left _ (ltb (soh_from bytes (i + 4)) last) c;
          behind = omega (arith, after);
          agrees =
              length_agrees-LengthAgrees bytes start (search_end bytes start) i
                (search_end-within start) (omega (arith, search_end-near start, o)) a;
          last =
              ap (at bytes) (one_back (soh_from bytes (i + 4))) ∙ found (omega (arith, before, l));
          within = omega (arith, before, l);
        };
      }

  find_end-IsBoundary :
      (fuel start last : ℕ) (declared : Option (ℕ × ℕ)) (i first : ℕ)
      → starts_message bytes start ≡ true
      → last ≤ length bytes
      → start + 20 ≤ i
      → first ≤ length bytes
      → declared ≡ declared_length start
      → IsBoundary (find_end bytes fuel start last declared i first)
  unfolding find_end
  find_end-IsBoundary zero start last declared i first s l o f d =
      no_trailer-IsBoundary start first f
  find_end-IsBoundary (suc fuel) start last declared i first s l o f d =
      let behind = soh_from bytes (i + 4) + 1 in
      let first' = if is_candidate bytes last i && first == 0 then behind else first in
      elim (Bool-cases (ltb (i + 7) last)) [
        | inr e ↦ rw e (no_trailer-IsBoundary start first f)
        | inl e ↦
            let (after, (inside, found)) = soh_from-found (i + 4) (ground arith) in
            elim (Bool-cases (is_candidate bytes last i && length_agrees declared i)) [
              | inl e' ↦
                  rw (e, e')
                    (accepted start last i s l o (and_left _ (length_agrees declared i) e')
                      (ground arith)
                      (ap (λ (r : Option (ℕ × ℕ)). length_agrees r i) (sym d)
                        ∙ and_right (is_candidate bytes last i) _ e'))
              | inr e' ↦
                  rw (e, e')
                    (find_end-IsBoundary fuel start last declared (i + 1) first' s l (omega arith)
                      (first-within last i first l f) d)
            ]
      ]

pub find_message_boundary-IsBoundary :
    (bytes : Bytes) → IsBoundary bytes (find_message_boundary bytes)
unfolding find_message_boundary
find_message_boundary-IsBoundary bytes =
    let start = find_start bytes (length bytes) 0 in
    elim (Bool-cases (leb (length bytes) (start + 5))) [
      | inl e ↦ rw e (record {
        moves_on = λ c. absurd (false≢true c);
        in_bounds = omega arith;
        message = λ c. absurd (false≢true c);
      })
      | inr e ↦ rw e (
          find_end-IsBoundary bytes (length bytes) start (search_end bytes start)
            (find_length bytes (length bytes) (search_end bytes start) start) (start + 20) 0
            (find_start-begins bytes (length bytes) 0 (omega arith) (omega arith) (ground arith))
            (ground arith) (omega arith) (omega arith) refl)
    ]
