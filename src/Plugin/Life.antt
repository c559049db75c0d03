-- ===== src/Plugin/Life.antt =====
-- apollo.go and lifecycle_context.go: loading and starting again, and the plugin over any sequence of
-- its operations.
use lynx_apollo.Base.{
  ◌≡◌, ◌≢◌, refl, sym, subst, ◌∙◌, ap, true, false, none, some, arith, pos, ◌≤ℤ◌, ltb_float, frac,
  if◌then◌else◌, Option,
}
use lynx_apollo.Conf.{
  Apollo, min_circuit_breaker_threshold, max_circuit_breaker_threshold,
  default_circuit_breaker_threshold,
}
use lynx_apollo.Metrics.{Metrics, Registry, new_apollo_metrics}
use lynx_apollo.Validator.Result.{Externals}
use lynx_apollo.Validator.Rules.{Passes, NumericRanges}
use lynx_apollo.Validator.Checks.{validate, apply_implicit_defaults}
use lynx_apollo.Validator.Sound.{validate_iff}
use lynx_apollo.Resilience.Retry.{RetryManager, new_retry_manager}
use lynx_apollo.Resilience.Breaker.{CircuitBreaker, closed, new_circuit_breaker}
use lynx_apollo.Plugin.State.{PlugApollo, check_initialized}
use lynx_apollo.Plugin.Setup.{
  Framework, returned, initialize_resources, init_components, validate_plugin_config,
  set_default_config, configured_retries, configured_threshold, retry_manager_for, threshold_for,
  with_metrics,
}
use lynx_apollo.Plugin.Startup.{startup}
use lynx_apollo.Plugin.Phases.{startup_succeeds}

accepted :
    (x : Externals) (p : PlugApollo) (c : Apollo)
    → (validate_plugin_config x (record p { conf = some c })).1 ≡ none
    → Passes x (apply_implicit_defaults c)
unfolding validate_plugin_config
accepted x p c h = (validate_iff x c).0 (ground arith)

pub accepted_conf :
    (x : Externals) (p : PlugApollo) (c : Apollo)
    → (validate_plugin_config x (record p { conf = some c })).0
      ≡ record p { conf = some (apply_implicit_defaults c) }
unfolding validate_plugin_config validate
accepted_conf x p c = refl

-- The resilience components are there, and the retries are in their range.
abbrev pub HasComponents : PlugApollo → Type 0
HasComponents p =
    (r : RetryManager) × (cb : CircuitBreaker) × (p.retry_manager ≡ some r)
    × (p.circuit_breaker ≡ some cb)
    × (pos 1 ≤ℤ r.max_retries)
    × (r.max_retries ≤ℤ pos 10)
    × (cb.state ≡ closed)
    × (ltb_float cb.threshold min_circuit_breaker_threshold ≡ false)
    × (ltb_float max_circuit_breaker_threshold cb.threshold ≡ false)

configured_retries_range :
    (c : Apollo)
    → NumericRanges c
    → (pos 1 ≤ℤ configured_retries c) × (configured_retries c ≤ℤ pos 10)
unfolding configured_retries
configured_retries_range c h = let low = h.retries_low in let high = h.retries_high in ground arith

configured_threshold_range :
    (c : Apollo)
    → NumericRanges c
    → (ltb_float (configured_threshold c) min_circuit_breaker_threshold ≡ false)
      × (ltb_float max_circuit_breaker_threshold (configured_threshold c) ≡ false)
unfolding configured_threshold
configured_threshold_range c h =
    elim (ltb_float (frac (pos 0) 1) c.circuit_breaker_threshold)
      as (λ b.
        (ltb_float (if b then c.circuit_breaker_threshold else default_circuit_breaker_threshold)
            min_circuit_breaker_threshold
          ≡ false)
        × (ltb_float max_circuit_breaker_threshold
              (if b then c.circuit_breaker_threshold else default_circuit_breaker_threshold)
            ≡ false)) [ true ↦ (h.threshold_low, h.threshold_high) | false ↦ (refl, refl) ]

-- What initComponents leaves alone, and what is there if it does not panic.
init_components_keeps :
    {W : Type 0} ⦃reg : Registry W⦄ (x : Externals) (s : PlugApollo × W)
    → let q = (init_components x s).0.0 in
      (q.conf ≡ s.0.conf)
      × (q.destroyed ≡ s.0.destroyed)
      × (q.initialized ≡ s.0.initialized)
      × (q.client ≡ s.0.client)
unfolding init_components
init_components_keeps x (p, w) = ground arith

with_metrics-HasComponents :
    (x : Externals) (p : PlugApollo) (c : Apollo) (o : Option Metrics)
    → p.conf ≡ some c
    → Passes x c
    → (with_metrics x p o).1 ≡ returned none
    → HasComponents (with_metrics x p o).0
unfolding with_metrics new_retry_manager new_circuit_breaker retry_manager_for threshold_for
with_metrics-HasComponents x p c none e h good = absurd (ground arith)
with_metrics-HasComponents x p c (some made) e h good =
    subst (λ o. HasComponents (with_metrics x (record p { conf = o }) (some made)).0) (sym e)
      (
        _,
        _,
        refl,
        refl,
        (configured_retries_range c h.numeric).0,
        (configured_retries_range c h.numeric).1,
        refl,
        (configured_threshold_range c h.numeric).0,
        (configured_threshold_range c h.numeric).1,
      )

module _ {W : Type 0} ⦃reg : Registry W⦄ ⦃f : Framework W⦄ where
  -- The steps of an InitializeResources that succeeds.
  pub initialize-ok :
      (x : Externals) (p : PlugApollo) (w : W)
      → (initialize_resources x (p, w)).1 ≡ returned none
      → (c : Apollo) × let q = record p {
        has_runtime = true;
        destroyed = false;
        conf = some (set_default_config c);
      } in
          ((validate_plugin_config x q).1 ≡ none)
          × (initialize_resources x (p, w)
              ≡ init_components x
                  ((validate_plugin_config x q).0, (f.scan (f.base_initialize w).0).0.0))
  unfolding initialize_resources
  initialize-ok x p w h = ((f.scan (f.base_initialize w).0).0.1, (ground arith, ground arith))

  -- When InitializeResources succeeds, the configuration meets the rules of the validator, retries and
  -- breaker are there with their settings in range, the breaker is closed, and the plugin no longer
  -- counts as destroyed.
  pub initialize_succeeds :
      (x : Externals) (p : PlugApollo) (w : W)
      → (initialize_resources x (p, w)).1 ≡ returned none
      → let q = (initialize_resources x (p, w)).0.0 in
        ((c : Apollo) × (q.conf ≡ some c) × Passes x c) × HasComponents q × (q.destroyed ≡ false)
  unfolding init_components
  initialize_succeeds x p w h =
      let (c, (good, same)) = initialize-ok x p w h in
      let v = (f.scan (f.base_initialize w).0).0.0 in
      let q = record p {
        has_runtime = true;
        destroyed = false;
        conf = some (set_default_config c);
      } in
      let d = apply_implicit_defaults (set_default_config c) in
      let r = record q { conf = some d } in
      let passes = accepted x q (set_default_config c) good in
      let to_r =
        same ∙ ap (λ s. init_components x (s, v)) (accepted_conf x q (set_default_config c)) in
      let kept = init_components_keeps x (r, v) in
      subst
        (λ s.
          ((e : Apollo) × (s.0.0.conf ≡ some e) × Passes x e)
          × HasComponents s.0.0
          × (s.0.0.destroyed ≡ false))
        (sym to_r)
        (
          (d, kept.0, passes),
          with_metrics-HasComponents x r d (new_apollo_metrics v).1 refl passes
              (ap (λ s. s.1) (sym to_r) ∙ h),
          kept.1,
        )

  -- InitializeResources and a startup that both succeed give a plugin that answers calls.
  pub load_and_start :
      (x : Externals) (p : PlugApollo) (w v : W)
      → (initialize_resources x (p, w)).1 ≡ returned none
      → let q = (initialize_resources x (p, w)).0.0 in
        (startup x (q, v)).1 ≡ none
        → let s = (startup x (q, v)).0.0 in
          (check_initialized s ≡ none) × HasComponents s × (s.client ≢ none)
  unfolding check_initialized
  load_and_start x p w v h g =
      let q = (initialize_resources x (p, w)).0.0 in
      let (conf, components, alive) = initialize_succeeds x p w h in
      let (c, k, set, made, same) = startup_succeeds x q v g in
      subst (λ s. (check_initialized s ≡ none) × HasComponents s × (s.client ≢ none)) (sym same)
        (ground (arith, alive), components, λ e. cc)
