-- ===== src/Base/Times.antt =====
-- Go's durations in nanoseconds.
use Prim.Native.Nat.{ℕ}

abbrev pub second : ℕ
second = 1_000_000_000

abbrev pub millisecond : ℕ
millisecond = 1_000_000
