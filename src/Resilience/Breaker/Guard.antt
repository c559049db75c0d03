-- ===== src/Resilience/Breaker/Guard.antt =====
-- resilience.go, `Do`: one attempt of an operation behind the breaker. The operation acts on the
-- world `W` and not on this breaker; what other goroutines do to the breaker meanwhile is in
-- `Events`, where the two halves of `Do` are events of their own.
use lynx_apollo.Base.{ℕ, ◌+◌, ◌≤◌, ◌≡◌, refl, Option, none, some, arith}
use lynx_apollo.Errors.{GoError}
use lynx_apollo.Resilience.Machine.{Machine}
use lynx_apollo.Resilience.Breaker.{
  CircuitBreaker, CircuitState, closed, opened, half_open, other, before_attempt, record_failure,
  record_success,
}

module _ {ℓ} {W : Type ℓ} ⦃m : Machine W⦄ where
  -- The clock is read in the open state only.
  enter : CircuitState → CircuitBreaker → W → (W × CircuitBreaker) × Option GoError
  enter opened cb w =
      let (w', now) = m.read w in let (cb', err) = before_attempt now cb in ((w', cb'), err)
  enter _ cb w = let (cb', err) = before_attempt 0 cb in ((w, cb'), err)

  -- afterAttempt, with its readings of the clock
  settle : CircuitBreaker → W → Option GoError → (W × CircuitBreaker) × Option GoError
  settle cb w none =
      let (w', now) = m.read w in
      let (w'', later) = m.read w' in ((w'', record_success now later cb), none)
  settle cb w (some err) = let (w', now) = m.read w in ((w', record_failure now cb), some err)

  proceed :
      (W → W × Option GoError)
      → (W × CircuitBreaker) × Option GoError
      → (W × CircuitBreaker) × Option GoError
  unfolding settle
  proceed operation (s, some err) = (s, some err)
  proceed operation ((w, cb), none) = let (w', err) = operation w in settle cb w' err

  -- Do
  unfoldable pub guarded :
      (W → W × Option GoError) → W × CircuitBreaker → (W × CircuitBreaker) × Option GoError
  unfolding enter proceed
  guarded operation (w, cb) = proceed operation (enter cb.state cb w)

-- What the breaker's own readings of the clock do not add to a measure of the world.
module _ {ℓ} {W : Type ℓ} ⦃m : Machine W⦄ (cost : W → ℕ)
    (reads : (w : W) → cost (m.read w).0 ≡ cost w) where
  settle-cost :
      (cb : CircuitBreaker) (w : W) (err : Option GoError) → cost (settle cb w err).0.0 ≡ cost w
  unfolding settle
  settle-cost cb w none = ground (arith, reads w, reads (m.read w).0)
  settle-cost cb w (some err) = ground (arith, reads w)

  proceed-cost :
      (operation : W → W × Option GoError) (each : ℕ) (out : (W × CircuitBreaker) × Option GoError)
      → ((w : W) → cost (operation w).0 ≤ cost w + each)
      → cost (proceed operation out).0.0 ≤ cost out.0.0 + each
  unfolding proceed
  proceed-cost operation each (s, some err) attempt = ground arith
  proceed-cost operation each ((w, cb), none) attempt =
      ground (arith, attempt w, settle-cost cb (operation w).0 (operation w).1)

  enter-cost :
      (state : CircuitState) (cb : CircuitBreaker) (w : W) → cost (enter state cb w).0.0 ≡ cost w
  unfolding enter
  enter-cost closed cb w = refl
  enter-cost half_open cb w = refl
  enter-cost (other n) cb w = refl
  enter-cost opened cb w = ground (arith, reads w)

  pub guarded-cost :
      (operation : W → W × Option GoError) (each : ℕ) (s : W × CircuitBreaker)
      → ((w : W) → cost (operation w).0 ≤ cost w + each)
      → cost (guarded operation s).0.0 ≤ cost s.0 + each
  unfolding guarded
  guarded-cost operation each (w, cb) attempt =
      ground
        (arith, enter-cost cb.state cb w, proceed-cost operation each (enter cb.state cb w) attempt)

-- What the readings of the clock and the operation keep, an attempt behind the breaker keeps.
module _ {ℓ κ} {W : Type ℓ} ⦃m : Machine W⦄ (P : W → Type κ)
    (reads : (w : W) → P w → P (m.read w).0) where
  settle-keeps :
      (cb : CircuitBreaker) (w : W) (err : Option GoError) → P w → P (settle cb w err).0.0
  unfolding settle
  settle-keeps cb w none h = reads _ (reads w h)
  settle-keeps cb w (some err) h = reads w h

  proceed-keeps :
      (operation : W → W × Option GoError) (out : (W × CircuitBreaker) × Option GoError)
      → ((w : W) → P w → P (operation w).0)
      → P out.0.0
      → P (proceed operation out).0.0
  unfolding proceed
  proceed-keeps operation (s, some err) attempt h = h
  proceed-keeps operation ((w, cb), none) attempt h =
      settle-keeps cb (operation w).0 (operation w).1 (attempt w h)

  enter-keeps :
      (state : CircuitState) (cb : CircuitBreaker) (w : W) → P w → P (enter state cb w).0.0
  unfolding enter
  enter-keeps closed cb w h = h
  enter-keeps half_open cb w h = h
  enter-keeps (other n) cb w h = h
  enter-keeps opened cb w h = reads w h

  pub guarded-keeps :
      (operation : W → W × Option GoError) (s : W × CircuitBreaker)
      → ((w : W) → P w → P (operation w).0)
      → P s.0
      → P (guarded operation s).0.0
  unfolding guarded
  guarded-keeps operation (w, cb) attempt h =
      proceed-keeps operation (enter cb.state cb w) attempt (enter-keeps cb.state cb w h)
