-- ===== src/Resilience/Breaker/History.antt =====
-- resilience.go, `CircuitBreaker`: the two lists of times against the whole history of outcomes.
use lynx_apollo.Base.{
  ℕ, ◌+◌, ◌-◌, ◌≤◌, ◌≡◌, refl, sym, ◌∙◌, Bool, true, false, List, [], ◌∷◌, ◌++◌, none, some, arith,
  Float, filter, length, filter-append, if◌then◌else◌, frac, pos, leb_float, ◌==◌,
}
use lynx_apollo.Resilience.Breaker.{
  CircuitBreaker, closed, opened, circuit_window, new_circuit_breaker, before_attempt,
  after_attempt, get_failure_rate, force_open, force_close, prune_locked, record_failure,
  record_success, reset_counters, prune_before, is_half_open, failure_rate_locked,
}
use lynx_apollo.Resilience.Breaker.Window.{
  Ascending, Ascending-mono, Ascending-append, prune_before-eq-filter, since, filter-since-filter,
}
use lynx_apollo.Resilience.Breaker.Invariant.{Inv, apply-Inv, new-Inv}
use lynx_apollo.Resilience.Breaker.Events.{
  BreakerEvent, attempt, outcome, rate, forced_open, forced_closed, apply, starts, ends, InOrder,
  run,
}

-- Every outcome since the counters were last reset, and the cutoff of the last pruning.
pub record Log : Type 0 where
  pub fails : List ℕ
  pub wins : List ℕ
  pub cutoff : ℕ

abbrev pub new_log : Log
new_log = record { fails = []; wins = []; cutoff = 0 }

abbrev pub log_win : Bool → ℕ → ℕ → Log → Log
log_win true now later h = record { fails = []; wins = []; cutoff = later - circuit_window }
log_win false now later h = record h { wins = h.wins ++ now ∷ []; cutoff = later - circuit_window }

-- What a call adds to the history. A success ends it if the breaker was half open.
abbrev pub extend : BreakerEvent → CircuitBreaker → Log → Log
extend (outcome now later none) cb h = log_win (is_half_open cb.state) now later h
extend (outcome now later (some err)) cb h = record h {
  fails = h.fails ++ now ∷ [];
  cutoff = now - circuit_window;
}
extend (rate now) cb h = record h { cutoff = now - circuit_window }
extend (forced_closed now) cb h = record h { fails = []; wins = [] }
extend _ cb h = h

pub history : CircuitBreaker → Log → List BreakerEvent → Log
history cb h [] = h
history cb h (e ∷ es) = history (apply e cb) (extend e cb h) es

-- The breaker holds the part of the history that lies in the window, and no more.
pub record Tracks (h : Log) (cb : CircuitBreaker) : Type 0 where
  pub failures_tracked : cb.failures ≡ filter (since h.cutoff) h.fails
  pub successes_tracked : cb.successes ≡ filter (since h.cutoff) h.wins

new-Tracks : (threshold : Float) → Tracks new_log (new_circuit_breaker threshold)
unfolding new_circuit_breaker
new-Tracks threshold = record { failures_tracked = refl; successes_tracked = refl }

-- A pruned list that was a window on `hist` is the later window on it.
prune-window :
    (c d hi : ℕ) (ts hist : List ℕ)
    → c ≤ d
    → Ascending 0 hi ts
    → ts ≡ filter (since c) hist
    → prune_before ts d ≡ filter (since d) hist
prune-window c d hi ts hist h a e =
    prune_before-eq-filter 0 hi d ts a
    ∙ (λ i. filter (since d) (e i))
    ∙ filter-since-filter c d hist h

append-window :
    (c now : ℕ) (ts hist : List ℕ)
    → c ≤ now
    → ts ≡ filter (since c) hist
    → ts ++ now ∷ [] ≡ filter (since c) (hist ++ now ∷ [])
append-window c now ts hist h e = ground (arith, filter-append (since c) hist (now ∷ []))

apply-Tracks :
    (lo : ℕ) (e : BreakerEvent) (cb : CircuitBreaker) (h : Log)
    → lo ≤ starts e
    → starts e ≤ ends e
    → h.cutoff ≤ lo - circuit_window
    → Inv lo cb
    → Tracks h cb
    → Tracks (extend e cb h) (apply e cb) × ((extend e cb h).cutoff ≤ ends e - circuit_window)
unfolding apply before_attempt after_attempt get_failure_rate force_open force_close record_failure
    record_success reset_counters prune_locked
apply-Tracks lo (attempt now) cb h p q r v t = ground arith
apply-Tracks lo (outcome now later none) cb h p q r v t = ground (
  arith,
  prune-window h.cutoff (later - circuit_window) now cb.failures h.fails (omega arith)
      (Ascending-mono 0 0 lo now cb.failures (omega arith) p v.failures_ascend) t.failures_tracked,
  prune-window h.cutoff (later - circuit_window) now (cb.successes ++ now ∷ []) (h.wins ++ now ∷ [])
      (omega arith)
      (Ascending-append 0 now cb.successes (omega arith)
        (Ascending-mono 0 0 lo now cb.successes (omega arith) p v.successes_ascend))
      (append-window h.cutoff now cb.successes h.wins (omega arith) t.successes_tracked),
)
apply-Tracks lo (outcome now later (some err)) cb h p q r v t = ground (
  arith,
  prune-window h.cutoff (now - circuit_window) now cb.successes h.wins (omega arith)
      (Ascending-mono 0 0 lo now cb.successes (omega arith) p v.successes_ascend)
      t.successes_tracked,
  prune-window h.cutoff (now - circuit_window) now (cb.failures ++ now ∷ []) (h.fails ++ now ∷ [])
      (omega arith)
      (Ascending-append 0 now cb.failures (omega arith)
        (Ascending-mono 0 0 lo now cb.failures (omega arith) p v.failures_ascend))
      (append-window h.cutoff now cb.failures h.fails (omega arith) t.failures_tracked),
)
apply-Tracks lo (rate now) cb h p q r v t = ground (
  arith,
  prune-window h.cutoff (now - circuit_window) lo cb.failures h.fails (omega arith)
      v.failures_ascend t.failures_tracked,
  prune-window h.cutoff (now - circuit_window) lo cb.successes h.wins (omega arith)
      v.successes_ascend t.successes_tracked,
)
apply-Tracks lo (forced_open now) cb h p q r v t = ground arith
apply-Tracks lo (forced_closed now) cb h p q r v t = ground arith

run-Tracks :
    (lo : ℕ) (es : List BreakerEvent) (cb : CircuitBreaker) (h : Log)
    → InOrder lo es
    → h.cutoff ≤ lo - circuit_window
    → Inv lo cb
    → Tracks h cb
    → Tracks (history cb h es) (run cb es)
unfolding run history
run-Tracks lo [] cb h o r v t = t
run-Tracks lo (e ∷ es) cb h o r v t =
    let step = apply-Tracks lo e cb h o.0 o.1 r v t in
    run-Tracks (ends e) es (apply e cb) (extend e cb h) o.2 step.1 (apply-Inv lo e cb o.0 o.1 v)
      step.0

-- From a new breaker, after any calls in any order under a clock that does not run backwards, the
-- lists that the breaker keeps are the failures and the successes, among all since the last reset,
-- that lie in the window of the last pruning.
pub run_new-Tracks :
    (threshold : Float) (es : List BreakerEvent)
    → InOrder 0 es
    → let cb = new_circuit_breaker threshold in Tracks (history cb new_log es) (run cb es)
run_new-Tracks threshold es o =
    run-Tracks 0 es _ new_log o (omega arith) (new-Inv threshold) (new-Tracks threshold)

-- The failure rate of a window, counted on the history.
abbrev pub window_rate : ℕ → List ℕ → List ℕ → Float
window_rate cutoff fails wins =
    let f = length (filter (since cutoff) fails) in
    let n = f + length (filter (since cutoff) wins) in
    if n == 0 then frac (pos 0) 1 else frac (pos f) n

-- A failure opens a closed breaker exactly when the failures of the last 60 s, this one included,
-- make up at least the threshold of the outcomes of the last 60 s. The history is any that the
-- breaker tracks, up to a pruning that is not later than the failure's own.
pub record_failure-state :
    (now : ℕ) (cb : CircuitBreaker) (h : Log)
    → Inv now cb
    → Tracks h cb
    → h.cutoff ≤ now - circuit_window
    → cb.state ≡ closed
    → (record_failure now cb).state ≡ (
        if leb_float cb.threshold (window_rate (now - circuit_window) (h.fails ++ now ∷ []) h.wins)
        then opened
        else closed)
unfolding record_failure failure_rate_locked
record_failure-state now cb h v t r c = rw (failures, successes) (ground arith)
  where
    failures :
        filter (since (now - circuit_window)) (h.fails ++ now ∷ [])
        ≡ prune_before (cb.failures ++ now ∷ []) (now - circuit_window)
    failures = sym (
        prune-window h.cutoff _ now _ _ r
          (Ascending-append 0 now cb.failures (omega arith) v.failures_ascend)
          (append-window h.cutoff now cb.failures h.fails (omega arith) t.failures_tracked))

    successes :
        filter (since (now - circuit_window)) h.wins
        ≡ prune_before cb.successes (now - circuit_window)
    successes = sym (prune-window h.cutoff _ now _ _ r v.successes_ascend t.successes_tracked)
