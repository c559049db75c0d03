-- ===== src/Tests/Breaker.antt =====
-- The circuit breaker at concrete inputs: threshold one half, a failure at 70 s, successes at 10 s and 80 s.
use lynx_apollo.Base.{
  ℕ, ◌*◌, ◌≡◌, refl, inr, List, [], ◌∷◌, none, some, arith, Float, frac, pos, second, filter, leb,
  literal,
}
use lynx_apollo.Errors.{GoError, plain}
use lynx_apollo.Resilience.Machine.{plain_clock}
use lynx_apollo.Resilience.Breaker.{
  CircuitBreaker, closed, opened, new_circuit_breaker, record_failure, before_attempt,
  after_attempt, rejected_open, prune_before,
}
use lynx_apollo.Resilience.Breaker.Window.{prune_before-eq-filter}
use lynx_apollo.Resilience.Breaker.Events.{BreakerEvent, attempt, outcome, run, apply, end_time}
use lynx_apollo.Resilience.Breaker.Invariant.{Inv, run_new-Inv}
use lynx_apollo.Resilience.Breaker.History.{
  Log, Tracks, history, new_log, run_new-Tracks, record_failure-state,
}
use lynx_apollo.Resilience.Breaker.Guard.{guarded}
use lynx_apollo.Resilience.Breaker.Gate.{
  guarded_rejects, guarded_probe, guarded_closed, admissions, admissions_all, AllAdmitted,
  late_outcomes,
}

abbrev half : Float
half = frac (pos 1) 2

abbrev broken : GoError
broken = plain (literal "broken")

abbrev busy : CircuitBreaker
busy = record {
  threshold = half;
  failures = 70 * second ∷ [];
  successes = 10 * second ∷ 80 * second ∷ [];
  last_failure = 70 * second;
  state = closed;
}

abbrev busy_log : Log
busy_log = record { fails = 70 * second ∷ []; wins = 10 * second ∷ 80 * second ∷ []; cutoff = 0 }

abbrev tripped : CircuitBreaker
tripped = record busy { state = opened }

-- A failure trips a new breaker; a probe after the open period closes it.
abbrev trip_and_recover : List BreakerEvent
trip_and_recover =
    attempt (1 * second)
    ∷ outcome (2 * second) (2 * second) (some broken)
    ∷ attempt (3 * second)
    ∷ attempt (33 * second)
    ∷ outcome (34 * second) (34 * second) none
    ∷ []

prune_before_test : prune_before (1 ∷ 5 ∷ 9 ∷ []) 4 ≡ filter (leb 4) (1 ∷ 5 ∷ 9 ∷ [])
prune_before_test = prune_before-eq-filter 0 9 4 (1 ∷ 5 ∷ 9 ∷ []) (omega arith)

run_new-Inv_example :
    Inv (end_time 0 trip_and_recover) (run (new_circuit_breaker half) trip_and_recover)
run_new-Inv_example = run_new-Inv half trip_and_recover (omega arith)

run_new-Tracks_example :
    Tracks
      (history (new_circuit_breaker half) new_log trip_and_recover)
      (run (new_circuit_breaker half) trip_and_recover)
run_new-Tracks_example = run_new-Tracks half trip_and_recover (omega arith)

busy-Inv : Inv (100 * second) busy
busy-Inv = record {
  failures_ascend = omega arith;
  successes_ascend = omega arith;
  failed_before = omega arith;
  known = refl;
}

record_failure-state_example : (record_failure (100 * second) busy).state ≡ opened
record_failure-state_example =
    record_failure-state (100 * second) busy busy_log busy-Inv
      (record { failures_tracked = refl; successes_tracked = refl }) (omega arith) refl

guarded_rejects_example :
    guarded (λ (w : ℕ). (w, none)) (90 * second, tripped)
    ≡ ((90 * second, tripped), some rejected_open)
guarded_rejects_example =
    guarded_rejects (λ (w : ℕ). (w, none)) (90 * second) tripped refl (omega arith)

guarded_probe_example : (guarded (λ (w : ℕ). (w, none)) (101 * second, tripped)).0.1.state ≡ closed
unfolding guarded before_attempt
guarded_probe_example =
    (guarded_probe (λ (w : ℕ). (w, none)) (101 * second) tripped (101 * second)
      (inr (refl, omega arith, refl))).1.0

guarded_closed_test : (guarded (λ (w : ℕ). (w, some broken)) (101 * second, busy)).1 ≡ some broken
guarded_closed_test = (guarded_closed (λ (w : ℕ). (w, some broken)) (101 * second) busy refl).0

admissions_all_test :
    AllAdmitted (admissions (101 * second ∷ 102 * second ∷ 103 * second ∷ []) tripped)
admissions_all_test =
    admissions_all (101 * second ∷ 102 * second ∷ 103 * second ∷ []) tripped refl (omega arith)

late_outcomes_test :
    (after_attempt (90 * second) 0 (some broken) tripped).last_failure ≡ 90 * second
late_outcomes_test = (late_outcomes (90 * second) 0 broken tripped refl).1

recovers : (run (new_circuit_breaker half) trip_and_recover).state ≡ closed
unfolding run apply new_circuit_breaker before_attempt after_attempt prune_before
recovers = refl
