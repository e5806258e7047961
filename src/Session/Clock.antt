-- ===== src/Session/Clock.antt =====
-- include/nexusfix/session/session_manager.hpp, `is_sending_time_accurate`: the check of a message's
-- sending time against the system clock. A `char` is signed, and `p[i] - '0'` may be negative.
use nexus_fix.Base.{ℕ, ◌+◌, ◌-◌, Bool, false, if◌then◌else◌, ltb, Bytes, length, get_or}
use nexus_fix.Base.Words.{ℤ, pos, negsuc, ◌+ℤ◌, ◌-ℤ◌, ◌*ℤ◌, ◌/ℤ◌, abs, leℤ}

-- `p[i] - '0'`
unfoldable pub digit_at : Bytes → ℕ → ℤ
unfolding ◌-ℤ◌
digit_at p i = let c = get_or p i 0 in (if ltb c 128 then pos c else negsuc (255 - c)) -ℤ pos b'0'

unfoldable pub parse2 : Bytes → ℕ → ℤ
unfolding digit_at ◌+ℤ◌ ◌*ℤ◌
parse2 p i = digit_at p i *ℤ pos 10 +ℤ digit_at p (i + 1)

unfoldable pub parse4 : Bytes → ℕ → ℤ
unfolding digit_at ◌+ℤ◌ ◌*ℤ◌
parse4 p i =
    digit_at p i *ℤ pos 1000
    +ℤ digit_at p (i + 1) *ℤ pos 100
    +ℤ digit_at p (i + 2) *ℤ pos 10
    +ℤ digit_at p (i + 3)

unfoldable pub days_from_ymd : ℤ → ℤ → ℤ → ℤ
unfolding ◌+ℤ◌ ◌-ℤ◌ ◌*ℤ◌ ◌/ℤ◌ leℤ
days_from_ymd year m d =
    let y = if leℤ m (pos 2) then year -ℤ pos 1 else year in
    let era = y /ℤ 400 in
    let yoe = y -ℤ era *ℤ pos 400 in
    let shifted = if leℤ m (pos 2) then m +ℤ pos 9 else m -ℤ pos 3 in
    let doy = (pos 153 *ℤ shifted +ℤ pos 2) /ℤ 5 +ℤ d -ℤ pos 1 in
    let doe = yoe *ℤ pos 365 +ℤ yoe /ℤ 4 -ℤ yoe /ℤ 100 +ℤ doy in
    era *ℤ pos 146097 +ℤ doe -ℤ pos 719468

unfoldable pub message_epoch : Bytes → ℤ
unfolding days_from_ymd parse2 parse4
message_epoch s =
    days_from_ymd (parse4 s 0) (parse2 s 4) (parse2 s 6) *ℤ pos 86400
    +ℤ parse2 s 9 *ℤ pos 3600
    +ℤ parse2 s 12 *ℤ pos 60
    +ℤ parse2 s 15

-- `now` is the system clock, in seconds since 1970.
unfoldable pub is_sending_time_accurate : Bytes → ℕ → ℤ → Bool
unfolding message_epoch ◌-ℤ◌ leℤ
is_sending_time_accurate s now max_latency =
    if ltb (length s) 17 then false else leℤ (pos (abs (pos now -ℤ message_epoch s))) max_latency
