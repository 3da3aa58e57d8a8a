-- ===== src/Prelude/Clock.antt =====
-- `time.Time` is the number of nanoseconds since Go's zero time (1 January of year 1, UTC), so that
-- `IsZero` is a test for 0; `time.Duration` is a number of nanoseconds. A difference stops at 0
-- where Go's is negative: the program only compares differences with durations that are not negative,
-- and both readings give such a comparison the same answer.
use Prim.Native.Nat.{ℕ, ◌*◌}
use mathlib.Core.Bool.{Bool}
use codex_auto_retry.Prelude.Tests.{ltb, eqb}

abbrev pub Time : Type 0
Time = ℕ

abbrev pub Duration : Type 0
Duration = ℕ

abbrev pub second : Duration
second = 1000000000

abbrev pub minute : Duration
minute = 60 * second

abbrev pub is_zero : Time → Bool
is_zero t = eqb t 0

abbrev pub before : Time → Time → Bool
before a b = ltb a b

abbrev pub after : Time → Time → Bool
after a b = ltb b a
