-- ===== src/Plugin/Calls.antt =====
-- apollo.go, config.go, health.go and lifecycle_context.go: the plugin over any sequence of its
-- operations.
use lynx_apollo.Base.{◌≡◌, ◌≢◌, sym, ◌∙◌, Text, true, List, [], ◌∷◌, none, arith}
use lynx_apollo.Metrics.{Registry}
use lynx_apollo.Client.State.{Http}
use lynx_apollo.Resilience.Machine.{Machine}
use lynx_apollo.Validator.Result.{Externals}
use lynx_apollo.Validator.Checks.{validate}
use lynx_apollo.Plugin.State.{PlugApollo, new_apollo_config_center}
use lynx_apollo.Plugin.Values.{call_machine, breaker_machine, get_config_value}
use lynx_apollo.Plugin.Health.{check_machine, check_health}
use lynx_apollo.Plugin.Setup.{
  Framework, initialize_resources, init_components, validate_plugin_config,
}
use lynx_apollo.Plugin.Startup.{startup, start_with, roll_back}
use lynx_apollo.Plugin.Cleanup.{cleanup, tear_down}
use lynx_apollo.Plugin.Keeps.{
  Keeps, get_config_value-Keeps, check_health-Keeps, watch_config-Keeps, handle_changes-Keeps,
}
use lynx_apollo.Plugin.Watching.{watch_config, handle_changes}
use lynx_apollo.Watcher.State.{Pairs}

-- An initialized plugin has a configuration and a client.
abbrev pub Safe : PlugApollo → Type 0
Safe p = p.initialized ≡ true → (p.conf ≢ none) × (p.client ≢ none)

Keeps-Safe : (p q : PlugApollo) → Keeps p q → Safe p → Safe q
unfolding Keeps
Keeps-Safe p q kept h i =
    let safe = h (sym kept.1 ∙ i) in (λ e. safe.0 (sym kept.0 ∙ e), kept.2 safe.1)

-- An operation that a program can call.
pub data Event : Type 0 where
  load start stop check : Event
  read : Text → Text → Event
  watch : Text → Event
  deliver : Text → Pairs → Event

module _ {W : Type 0} ⦃http : Http W⦄ ⦃m : Machine W⦄ ⦃reg : Registry W⦄ ⦃f : Framework W⦄
    (x : Externals) where
  abbrev pub apply : Event → PlugApollo × W → PlugApollo × W
  apply load s = (initialize_resources x s).0
  apply start s = (startup x s).0
  apply stop s = (cleanup s).0
  apply check s = (check_health s).0
  apply (read namespace key) s = (get_config_value namespace key s).0
  apply (watch namespace) (p, w) = ((watch_config namespace p).0, w)
  apply (deliver namespace kvs) (p, w) = (handle_changes namespace kvs p, w)

  abbrev pub run : List Event → PlugApollo × W → PlugApollo × W
  run [] s = s
  run (e ∷ es) s = run es (apply e s)

  load-Safe : (p : PlugApollo) (w : W) → Safe p → Safe (initialize_resources x (p, w)).0.0
  unfolding initialize_resources validate_plugin_config init_components validate
  load-Safe p w h i = (λ e. ground arith, λ e. ground arith)

  start-Safe : (p : PlugApollo) (w : W) → Safe p → Safe (startup x (p, w)).0.0
  unfolding startup start_with roll_back
  start-Safe p w h i = (λ e. ground arith, λ e. ground arith)

  stop-Safe : (p : PlugApollo) (w : W) → Safe p → Safe (cleanup (p, w)).0.0
  unfolding cleanup tear_down
  stop-Safe p w h i = (λ e. ground arith, λ e. ground arith)

  read-Safe :
      (namespace key : Text) (p : PlugApollo) (w : W)
      → Safe p
      → Safe (get_config_value namespace key (p, w)).0.0
  read-Safe namespace key p w = Keeps-Safe p _ (get_config_value-Keeps namespace key p w)

  check-Safe : (p : PlugApollo) (w : W) → Safe p → Safe (check_health (p, w)).0.0
  check-Safe p w = Keeps-Safe p _ (check_health-Keeps p w)

  apply-Safe : (e : Event) (s : PlugApollo × W) → Safe s.0 → Safe (apply e s).0
  apply-Safe load (p, w) h = load-Safe p w h
  apply-Safe start (p, w) h = start-Safe p w h
  apply-Safe stop (p, w) h = stop-Safe p w h
  apply-Safe check (p, w) h = check-Safe p w h
  apply-Safe (watch namespace) (p, w) h = Keeps-Safe p _ (watch_config-Keeps namespace p) h
  apply-Safe (deliver namespace kvs) (p, w) h =
      Keeps-Safe p _ (handle_changes-Keeps namespace kvs p) h
  apply-Safe (read namespace key) (p, w) h = read-Safe namespace key p w h

  run-Safe : (es : List Event) (s : PlugApollo × W) → Safe s.0 → Safe (run es s).0
  run-Safe [] s h = h
  run-Safe (e ∷ es) s h = run-Safe es (apply e s) (apply-Safe e s h)

  -- After any sequence of InitializeResources, startups, cleanups, reads, health checks, calls of
  -- WatchConfig and deliveries of changes, whether they succeed or fail, a plugin that counts as
  -- initialized has a configuration and a client: no call that passes the test for an initialized
  -- plugin meets nil in their place.
  pub run_new-Safe :
      (es : List Event) (w : W)
      → let p = (run es (new_apollo_config_center, w)).0 in
        p.initialized ≡ true → (p.conf ≢ none) × (p.client ≢ none)
  run_new-Safe es w =
      run-Safe es (new_apollo_config_center, w) (unfold new_apollo_config_center in λ i. cc)
