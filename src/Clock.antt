-- ===== src/Clock.antt =====
-- Go's time.Time and time.Duration, as the sources use them: an instant is the integer number of
-- nanoseconds since the Unix epoch, a duration an integer number of nanoseconds.
use tracker.Base.{
  ℕ, ◌+◌, ◌-◌, ◌*◌, ◌/◌, ◌%◌, ◌^◌, ◌<◌, ◌≡◌, Bool, ℤ, pos, negsuc, pos_part, neg_part, ltb_ℤ, int64,
  ◌+ℤ◌, ◌-ℤ◌, ◌*ℤ◌, arith,
}

abbrev pub Time : Type 0
Time = ℤ

-- One second in nanoseconds.
abbrev pub second : ℕ
second = 1_000_000_000

abbrev pub hour : ℕ
hour = 3600 * second

abbrev pub before : Time → Time → Bool
before a b = ltb_ℤ a b

abbrev pub after : Time → Time → Bool
after a b = ltb_ℤ b a

-- Unix(): whole seconds since the epoch, rounded down, and the nanoseconds above them.
unfoldable pub unix : Time → ℤ
unix (pos n) = pos (n / second)
unix (negsuc n) = negsuc (n / second)

unfoldable pub nanosecond : Time → ℕ
nanosecond (pos n) = n % second
nanosecond (negsuc n) = second - 1 - n % second

-- UnixMicro(): the same in microseconds, as an int64.
unfoldable pub unix_micro : Time → ℤ
unix_micro (pos n) = int64 (pos (n / 1000))
unix_micro (negsuc n) = int64 (negsuc (n / 1000))

-- time.Unix(s, 0): a Time keeps its seconds since the year 1 in an int64, and the sum wraps.
unfoldable pub from_unix : ℤ → Time
from_unix s = (int64 (s +ℤ pos 62_135_596_800) -ℤ pos 62_135_596_800) *ℤ pos second

-- Instants whose Unix seconds stay below 2 ^ 61 on either side of the epoch.
abbrev pub InRange : Time → Type 0
InRange t = (pos_part t < 2 ^ 61 * second) × (neg_part t < 2 ^ 61 * second)

-- The two parts make up the instant.
pub unix_parts :
    (t : Time)
    → pos_part (unix t) * second + nanosecond t + neg_part t
      ≡ pos_part t + neg_part (unix t) * second
unfolding unix nanosecond
unix_parts (pos n) = omega arith
unix_parts (negsuc n) = omega arith

pub nanosecond-lt : (t : Time) → nanosecond t < second
unfolding nanosecond
nanosecond-lt (pos n) = omega arith
nanosecond-lt (negsuc n) = omega arith
