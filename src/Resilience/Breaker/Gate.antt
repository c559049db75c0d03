-- ===== src/Resilience/Breaker/Gate.antt =====
-- resilience.go, `Do`: which attempts run, and what they make of the breaker.
use lynx_apollo.Base.{ℕ, ◌+◌, ◌≤◌, ◌<◌, ◌≡◌, refl, ◌⊎◌, List, [], ◌∷◌, Option, none, some, arith}
use lynx_apollo.Errors.{GoError}
use lynx_apollo.Resilience.Machine.{Machine}
use lynx_apollo.Resilience.Breaker.{
  CircuitBreaker, closed, opened, half_open, open_period, rejected_open, before_attempt,
  after_attempt, record_failure, record_success, reset_counters,
}
use lynx_apollo.Resilience.Breaker.Guard.{guarded}

module _ {ℓ} {W : Type ℓ} ⦃m : Machine W⦄ (operation : W → W × Option GoError) (w : W)
    (cb : CircuitBreaker) where
  -- An open breaker whose last failure is at most 30 s old, by the clock that the attempt reads,
  -- rejects it: the operation does not run, and the breaker stays as it was.
  pub guarded_rejects :
      cb.state ≡ opened
      → (m.read w).1 ≤ cb.last_failure + open_period
      → guarded operation (w, cb) ≡ (((m.read w).0, cb), some rejected_open)
  unfolding guarded before_attempt
  guarded_rejects o h = ground arith

  -- The world in which the operation of a probe runs: the breaker is half open, or has been open for
  -- more than 30 s by the clock that the attempt reads.
  abbrev pub ProbesIn : W → Type ℓ
  ProbesIn v =
      ((cb.state ≡ half_open) × (v ≡ w))
      ⊎ ((cb.state ≡ opened) × (cb.last_failure + open_period < (m.read w).1) × (v ≡ (m.read w).0))

  -- What is left after an outcome of the probe.
  abbrev pub Probed : W → Option GoError → CircuitBreaker → Type 0
  Probed v none after = (after.state ≡ closed) × (after.failures ≡ []) × (after.successes ≡ [])
  Probed v (some err) after = (after.state ≡ opened) × (after.last_failure ≡ (m.read v).1)

  -- A probe runs the operation and returns its result. If it succeeds, the breaker is closed with an
  -- empty window; if it fails, the breaker is open and a new open period starts at that moment.
  pub guarded_probe :
      (v : W)
      → ProbesIn v
      → let after = guarded operation (w, cb) in
        (after.1 ≡ (operation v).1) × Probed (operation v).0 after.1 after.0.1
  unfolding guarded before_attempt record_failure record_success reset_counters
  guarded_probe v h = ground arith

  -- A closed breaker after an outcome.
  abbrev pub Settled : Option GoError → CircuitBreaker → Type 0
  Settled none after = after.state ≡ closed
  Settled (some err) after = (after.state ≡ closed) ⊎ (after.state ≡ opened)

  -- A closed breaker lets every attempt through and returns its result. A success leaves it closed, a
  -- failure closed or open.
  pub guarded_closed :
      cb.state ≡ closed
      → let after = guarded operation (w, cb) in
        (after.1 ≡ (operation w).1) × Settled after.1 after.0.1
  unfolding guarded before_attempt record_failure record_success reset_counters
  guarded_closed h = ground arith

-- The answers to attempts that begin one after another before any has reported its outcome.
pub admissions : List ℕ → CircuitBreaker → List (Option GoError)
admissions [] cb = []
admissions (now ∷ ts) cb = (before_attempt now cb).1 ∷ admissions ts (before_attempt now cb).0

abbrev pub AllAdmitted : List (Option GoError) → Type 0
AllAdmitted [] = Unit {0}
AllAdmitted (r ∷ rs) = (r ≡ none) × AllAdmitted rs

abbrev pub After : ℕ → List ℕ → Type 0
After t [] = Unit {0}
After t (now ∷ ts) = (t < now) × After t ts

before_attempt-half_open :
    (now : ℕ) (cb : CircuitBreaker) → cb.state ≡ half_open → before_attempt now cb ≡ (cb, none)
unfolding before_attempt
before_attempt-half_open now cb h = ground arith

half_open_admits :
    (ts : List ℕ) (cb : CircuitBreaker) → cb.state ≡ half_open → AllAdmitted (admissions ts cb)
unfolding admissions
half_open_admits [] cb h = tt
half_open_admits (now ∷ ts) cb h =
    rw (before_attempt-half_open now cb h) (refl, half_open_admits ts cb h)

-- Once the open period is over the breaker does not wait for the first probe: it admits every
-- attempt, however many, that begins before an outcome is recorded.
pub admissions_all :
    (ts : List ℕ) (cb : CircuitBreaker)
    → cb.state ≡ opened
    → After (cb.last_failure + open_period) ts
    → AllAdmitted (admissions ts cb)
unfolding admissions before_attempt
admissions_all [] cb h a = tt
admissions_all (now ∷ ts) cb h a =
    ground (arith, half_open_admits ts (record cb { state = half_open }) refl)

-- A failure that an attempt reports late, when the breaker is open already, starts the open period
-- anew; a late success changes neither the state nor the last failure.
pub late_outcomes :
    (now later : ℕ) (err : GoError) (cb : CircuitBreaker)
    → cb.state ≡ opened
    → ((after_attempt now later (some err) cb).state ≡ opened)
      × ((after_attempt now later (some err) cb).last_failure ≡ now)
      × ((after_attempt now later none cb).state ≡ opened)
      × ((after_attempt now later none cb).last_failure ≡ cb.last_failure)
unfolding after_attempt record_failure record_success
late_outcomes now later err cb h = ground arith
