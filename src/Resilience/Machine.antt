-- ===== src/Resilience/Machine.antt =====
-- What the resilience code takes from the Go runtime: the monotonic clock, sleeping, and what a
-- float64 beyond the range of int64 converts to, which Go leaves to the implementation.
use lynx_apollo.Base.{ℕ, ◌+◌, ◌≤◌, ℤ, pos}
use native.Mathlib.Nat.{le_refl}

-- `time w` is the earliest instant that the clock can still show.
pub record Machine {ℓ} (W : Type ℓ) : Type ℓ where
  pub time : W → ℕ
  pub read : W → W × ℕ
  pub sleep : ℕ → W → W
  pub out_of_range : ℕ → ℤ
  pub time-le-read : (w : W) → time w ≤ (read w).1
  pub read-le-time : (w : W) → (read w).1 ≤ time (read w).0
  pub time-sleep : (d : ℕ) (w : W) → time w + d ≤ time (sleep d w)

-- A world that is its clock, in nanoseconds: reading takes no time, and a sleep is as long as asked.
instance abbrev pub plain_clock : Machine ℕ
plain_clock = record {
  time = λ w. w;
  read = λ w. (w, w);
  sleep = λ d w. w + d;
  out_of_range = λ n. pos 0;
  time-le-read = le_refl;
  read-le-time = le_refl;
  time-sleep = λ d w. le_refl (w + d);
}
