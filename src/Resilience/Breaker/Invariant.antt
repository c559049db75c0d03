-- ===== src/Resilience/Breaker/Invariant.antt =====
-- resilience.go, `CircuitBreaker`: what holds of the breaker between two calls, whatever the calls
-- are and however the goroutines interleave.
use lynx_apollo.Base.{
  ℕ, ◌-◌, ◌≤◌, ◌≡◌, refl, Bool, true, false, List, [], ◌∷◌, ◌++◌, none, some, arith, Float,
}
use lynx_apollo.Resilience.Breaker.{
  CircuitBreaker, CircuitState, other, circuit_window, new_circuit_breaker, before_attempt,
  after_attempt, get_failure_rate, force_open, force_close, prune_locked, record_failure,
  record_success, reset_counters, prune_before,
}
use lynx_apollo.Resilience.Breaker.Window.{
  Ascending, Ascending-mono, Ascending-append, prune_before-Ascending,
}
use lynx_apollo.Resilience.Breaker.Events.{
  BreakerEvent, attempt, outcome, rate, forced_open, forced_closed, apply, starts, ends, InOrder,
  run, end_time,
}

-- One of the states that have a name.
abbrev pub is_known : CircuitState → Bool
is_known (other n) = false
is_known _ = true

pub record Inv (now : ℕ) (cb : CircuitBreaker) : Type 0 where
  pub failures_ascend : Ascending 0 now cb.failures
  pub successes_ascend : Ascending 0 now cb.successes
  pub failed_before : cb.last_failure ≤ now
  pub known : is_known cb.state ≡ true

pub new-Inv : (threshold : Float) → Inv 0 (new_circuit_breaker threshold)
unfolding new_circuit_breaker
new-Inv threshold = record {
  failures_ascend = tt;
  successes_ascend = tt;
  failed_before = omega arith;
  known = refl;
}

prune-Inv : (now : ℕ) (cb : CircuitBreaker) → Inv now cb → Inv now (prune_locked now cb)
unfolding prune_locked
prune-Inv now cb v = record {
  failures_ascend =
      Ascending-mono _ 0 now now _ (omega arith) (omega arith)
        (prune_before-Ascending 0 now (now - circuit_window) cb.failures v.failures_ascend);
  successes_ascend =
      Ascending-mono _ 0 now now _ (omega arith) (omega arith)
        (prune_before-Ascending 0 now (now - circuit_window) cb.successes v.successes_ascend);
  failed_before = v.failed_before;
  known = v.known;
}

Inv-mono : (lo hi : ℕ) (cb : CircuitBreaker) → lo ≤ hi → Inv lo cb → Inv hi cb
Inv-mono lo hi cb h v = record {
  failures_ascend = Ascending-mono 0 0 lo hi cb.failures (omega arith) h v.failures_ascend;
  successes_ascend = Ascending-mono 0 0 lo hi cb.successes (omega arith) h v.successes_ascend;
  failed_before = omega (arith, v.failed_before);
  known = v.known;
}

record_failure-Inv : (now : ℕ) (cb : CircuitBreaker) → Inv now cb → Inv now (record_failure now cb)
unfolding record_failure reset_counters
record_failure-Inv now cb v = ground (
  arith,
  Ascending-mono (now - circuit_window) 0 now now
      (prune_before (cb.failures ++ now ∷ []) (now - circuit_window)),
  Ascending-mono (now - circuit_window) 0 now now
      (prune_before cb.successes (now - circuit_window)),
  prune_before-Ascending 0 now (now - circuit_window) cb.successes,
  prune_before-Ascending 0 now (now - circuit_window) (cb.failures ++ now ∷ []),
  Ascending-append 0 now cb.failures,
)

record_success-Inv :
    (now later : ℕ) (cb : CircuitBreaker)
    → now ≤ later
    → Inv now cb
    → Inv later (record_success now later cb)
unfolding record_success reset_counters
record_success-Inv now later cb h v = ground (
  arith,
  Inv-mono now later cb h v,
  Ascending-mono (later - circuit_window) 0 later later
      (prune_before cb.failures (later - circuit_window)),
  Ascending-mono (later - circuit_window) 0 later later
      (prune_before (cb.successes ++ now ∷ []) (later - circuit_window)),
  prune_before-Ascending 0 later (later - circuit_window) cb.failures,
  prune_before-Ascending 0 later (later - circuit_window) (cb.successes ++ now ∷ []),
  Ascending-mono 0 0 now later (cb.successes ++ now ∷ []),
  Ascending-append 0 now cb.successes,
)

pub apply-Inv :
    (lo : ℕ) (e : BreakerEvent) (cb : CircuitBreaker)
    → lo ≤ starts e
    → starts e ≤ ends e
    → Inv lo cb
    → Inv (ends e) (apply e cb)
unfolding apply before_attempt after_attempt get_failure_rate force_open force_close
apply-Inv lo (attempt now) cb p q v = ground (arith, Inv-mono lo now cb p v)
apply-Inv lo (outcome now later none) cb p q v =
    record_success-Inv now later cb q (Inv-mono lo now cb p v)
apply-Inv lo (outcome now later (some err)) cb p q v =
    Inv-mono now later _ q (record_failure-Inv now cb (Inv-mono lo now cb p v))
apply-Inv lo (rate now) cb p q v = prune-Inv now cb (Inv-mono lo now cb p v)
apply-Inv lo (forced_open now) cb p q v = ground (arith, Inv-mono lo now cb p v)
apply-Inv lo (forced_closed now) cb p q v = ground (arith, Inv-mono lo now cb p v)

run-Inv :
    (lo : ℕ) (es : List BreakerEvent) (cb : CircuitBreaker)
    → InOrder lo es
    → Inv lo cb
    → Inv (end_time lo es) (run cb es)
unfolding run
run-Inv lo [] cb o v = v
run-Inv lo (e ∷ es) cb o v = run-Inv (ends e) es (apply e cb) o.2 (apply-Inv lo e cb o.0 o.1 v)

-- From a new breaker, after any calls in any order, the recorded times ascend and none lies in the
-- future, and the state is one that has a name. The condition is a clock that does not run backwards.
pub run_new-Inv :
    (threshold : Float) (es : List BreakerEvent)
    → InOrder 0 es
    → Inv (end_time 0 es) (run (new_circuit_breaker threshold) es)
run_new-Inv threshold es o = run-Inv 0 es _ o (new-Inv threshold)
