-- ===== src/Plugin/FirstRead.antt =====
-- apollo.go, lifecycle_context.go and config.go: from loading the plugin to a read.
use lynx_apollo.Base.{
  true, false, ◌≡◌, refl, ◌∙◌, ap, inl, Text, none, some, pos, ℤ, negsuc, ℕ, ◌≤ℤ◌, arith,
}
use lynx_apollo.Metrics.{Registry}
use lynx_apollo.Client.State.{Client, ConfigResponse, Http, Result}
use lynx_apollo.Client.Requests.{lookup, get_config}
use lynx_apollo.Validator.Result.{Externals}
use lynx_apollo.Resilience.Machine.{Machine}
use lynx_apollo.Plugin.State.{PlugApollo, check_initialized}
use lynx_apollo.Plugin.Values.{cache_key, get_config_value}
use lynx_apollo.Plugin.Setup.{
  Framework, returned, initialize_resources, init_components, validate_plugin_config,
  set_default_config,
}
use lynx_apollo.Plugin.Startup.{startup}
use lynx_apollo.Plugin.Phases.{startup_succeeds}
use lynx_apollo.Plugin.Life.{HasComponents, initialize-ok, accepted_conf, load_and_start}
use lynx_apollo.Plugin.Served.{Able, served_value_is_read}

at_least_one : (n : ℤ) → pos 1 ≤ℤ n → (k : ℕ) × (n ≡ pos k)
at_least_one (pos k) h = (k, refl)
at_least_one (negsuc k) h = absurd (omega arith)

components-Able : (p : PlugApollo) → check_initialized p ≡ none → HasComponents p → Able p
components-Able p ready (r, cb, has_r, has_cb, low, high, shut, range_low, range_high) =
    let (k, same) = at_least_one r.max_retries low in
    record {
      retry = r;
      breaker = cb;
      retries = k;
      ready = ready;
      has_retry = has_r;
      has_breaker = has_cb;
      not_negative = same;
      admits = inl shut;
    }

module _ {W : Type 0} ⦃reg : Registry W⦄ ⦃f : Framework W⦄ where
  components_cache :
      (x : Externals) (s : PlugApollo × W)
      → (init_components x s).0.0.config_cache ≡ s.0.config_cache
  unfolding init_components
  components_cache x (p, w) = ground arith

  started_cache :
      (x : Externals) (p : PlugApollo) (w v : W)
      → (initialize_resources x (p, w)).1 ≡ returned none
      → let q = (initialize_resources x (p, w)).0.0 in
        (startup x (q, v)).1 ≡ none → (startup x (q, v)).0.0.config_cache ≡ p.config_cache
  started_cache x p w v h g =
      let (c, k, set, made, same) = startup_succeeds x (initialize_resources x (p, w)).0.0 v g in
      let (conf, (good, built)) = initialize-ok x p w h in
      let q = record p {
        has_runtime = true;
        destroyed = false;
        conf = some (set_default_config conf);
      } in
      let checked = (validate_plugin_config x q).0 in
      let there = (f.scan (f.base_initialize w).0).0.0 in
      let kept : checked.config_cache ≡ p.config_cache =
        ap (λ r. r.config_cache) (accepted_conf x q (set_default_config conf)) in
      ap (λ r. r.config_cache) same
      ∙ ap (λ out. out.0.0.config_cache) built
      ∙ components_cache x (checked, there)
      ∙ kept

module _ {W : Type 0} ⦃reg : Registry W⦄ ⦃f : Framework W⦄ ⦃http : Http W⦄ ⦃m : Machine W⦄ where
  -- A plugin that is loaded and started without an error reads: where it has not cached a key that the server
  -- has, GetConfigValue returns the server's value.
  pub loaded_plugin_reads :
      (x : Externals) (p : PlugApollo) (w v u : W) (c : Client) (namespace key value : Text)
      (response : ConfigResponse)
      → (initialize_resources x (p, w)).1 ≡ returned none
      → let q = (initialize_resources x (p, w)).0.0 in
        (startup x (q, v)).1 ≡ none
        → lookup (cache_key namespace key) p.config_cache ≡ none
        → let s = (startup x (q, v)).0.0 in
          s.client ≡ some c
          → (get_config namespace (c, u)).1 ≡ Result.ok response
          → lookup key response.configurations ≡ some value
          → (get_config_value namespace key (s, u)).1 ≡ Result.ok value
  loaded_plugin_reads x p w v u c namespace key value response loaded up missing has_c got has =
      let s = (startup x ((initialize_resources x (p, w)).0.0, v)).0.0 in
      let (ready, parts, client) = load_and_start x p w v loaded up in
      served_value_is_read namespace key value s u c response (components-Able s ready parts) has_c
        (ap (lookup (cache_key namespace key)) (started_cache x p w v loaded up) ∙ missing) got has
