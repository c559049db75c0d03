-- ===== src/Plugin/Startup.antt =====
-- lifecycle_context.go and apollo.go: the startup, with its phases and the rollback.
use lynx_apollo.Base.{
  ◌++◌, ◌*◌, Text, literal, is_empty, true, false, List, [], ◌∷◌, Option, none, some, if◌then◌else◌,
  ℤ, pos, second,
}
use lynx_apollo.Conf.{Duration, Apollo, default_cluster, default_namespace}
use lynx_apollo.Errors.{GoError, plain, wrapped, new_init_error, new_config_error, wrap_init_error}
use lynx_apollo.Metrics.{record_client_operation}
use lynx_apollo.Client.State.{Client, new_client, Result, ok, err}
use lynx_apollo.Validator.Result.{Externals}
use lynx_apollo.Plugin.State.{closed_of, PlugApollo}
use lynx_apollo.Plugin.Setup.{Framework}

timeout_of : Externals → Option Duration → ℤ
timeout_of x none = pos (10 * second)
timeout_of x (some d) = x.as_duration d

-- initApolloClient
unfoldable pub init_apollo_client : Externals → Apollo → Result Client
unfolding timeout_of
init_apollo_client x c =
    if is_empty c.meta_server
    then err (plain (literal "meta server address is required"))
    else if is_empty c.app_id
    then err (plain (literal "app ID is required"))
    else ok (
        new_client c.meta_server c.app_id
          (if is_empty c.cluster then default_cluster else c.cluster)
          (if is_empty c.namespace then default_namespace else c.namespace) c.token
          (timeout_of x c.timeout))

-- A step of the startup, and what it is called in its errors.
pub record Phase (W : Type 0) : Type 0 where
  pub canceled_before : Text
  pub failed : Text
  pub step : W → W × Option GoError

abbrev pub already_initialized_error : GoError
already_initialized_error = new_init_error (literal "Apollo plugin already initialized")

abbrev pub no_configuration : GoError
no_configuration = new_config_error (literal "configuration is required")

module _ {W : Type 0} ⦃f : Framework W⦄ where
  -- One more resource, if there is one.
  register_if : {A : Type 0} → Option A → Text → W → W
  register_if none name w = w
  register_if (some a) name w = f.register_private name w

  register_all : PlugApollo → W → W
  unfolding register_if
  register_all p w0 =
      let w1 =
        f.register_private (literal "client") (f.register_private (literal "http_client") w0) in
      let w2 = register_if p.metrics (literal "metrics") w1 in
      let w3 = register_if p.retry_manager (literal "retry_manager") w2 in
      let w4 = register_if p.circuit_breaker (literal "circuit_breaker") w3 in
      f.register_private (literal "config_cache")
        (f.register_private (literal "config_watchers") w4)

  register_after : PlugApollo → W × Option GoError → W × Option GoError
  unfolding register_all
  register_after p (w, some e) = (w, some e)
  register_after p (w, none) = (register_all p w, none)

  -- publishRuntimeResources
  unfoldable pub publish_runtime_resources : PlugApollo → W → W × Option GoError
  unfolding register_after
  publish_runtime_resources p w =
      if p.has_runtime then register_after p (f.register_control_plane w) else (w, none)

  -- The context is checked before each phase, and the first error ends the startup.
  unfoldable pub run_phases : List (Phase W) → W → W × Option GoError
  run_phases [] w = (w, none)
  run_phases (ph ∷ phs) w = elim (f.ctx_err w) [
    | some e ↦ (w, some (wrapped ph.canceled_before e))
    | none ↦ elim (ph.step w).1 [
      | some e ↦ ((ph.step w).0, some (wrap_init_error (some e) ph.failed))
      | none ↦ run_phases phs (ph.step w).0
    ]
  ]

  abbrev pub startup_phases : PlugApollo → List (Phase W)
  startup_phases p =
      record {
        canceled_before = literal "apollo startup canceled before setting control plane: ";
        failed = literal "failed to set control plane";
        step = f.set_control_plane;
      }
      ∷ record {
        canceled_before =
            literal "apollo startup canceled before initializing control plane config: ";
        failed = literal "failed to init control plane config";
        step = f.init_control_plane_config;
      }
      ∷ record {
        canceled_before = literal "apollo startup canceled before publishing runtime resources: ";
        failed = literal "failed to publish runtime resources";
        step = publish_runtime_resources p;
      }
      ∷ record {
        canceled_before = literal "apollo startup canceled before loading dependent plugins: ";
        failed = literal "failed to load dependent plugins";
        step = f.load_plugins;
      }
      ∷ []

  -- The deferred rollback closes the client, and lets go of it.
  unfoldable pub roll_back : PlugApollo → W × Option GoError → (PlugApollo × W) × Option GoError
  roll_back p (w, none) = ((p, w), none)
  roll_back p (w, some e) = (
    (
      record p {
        initialized = false;
        client = none;
        closed_clients = p.closed_clients ++ closed_of p.client;
      },
      w,
    ),
    some e,
  )

  with_client : PlugApollo → Result Client → W → (PlugApollo × W) × Option GoError
  unfolding roll_back run_phases publish_runtime_resources
  with_client p (err e) w =
      ((p, w), some (wrap_init_error (some e) (literal "failed to initialize Apollo client")))
  with_client p (ok c) w =
      let q = record p { client = some c; initialized = true } in
      roll_back q (run_phases (startup_phases q) w)

  -- The deferred metric, which runs after the rollback.
  startup_metric : (PlugApollo × W) × Option GoError → (PlugApollo × W) × Option GoError
  startup_metric ((p, w), none) =
      ((record p { metrics = record_client_operation "startup" "success" p.metrics }, w), none)
  startup_metric ((p, w), some e) =
      ((record p { metrics = record_client_operation "startup" "error" p.metrics }, w), some e)

  unfoldable pub start_with :
      Externals → Option Apollo → PlugApollo → W → (PlugApollo × W) × Option GoError
  unfolding with_client startup_metric init_apollo_client
  start_with x none p w = ((p, w), some no_configuration)
  start_with x (some c) p w = startup_metric (
      with_client (record p { metrics = record_client_operation "startup" "start" p.metrics })
        (init_apollo_client x c) w)

  -- startupTasksContext
  unfoldable pub startup : Externals → PlugApollo × W → (PlugApollo × W) × Option GoError
  unfolding start_with
  startup x (p, w) = elim (f.ctx_err w) [
    | some e ↦ ((p, w), some (wrapped (literal "apollo startup canceled before execution: ") e))
    | none ↦
        if p.initialized then ((p, w), some already_initialized_error) else start_with x p.conf p w
  ]
