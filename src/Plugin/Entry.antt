-- ===== src/Plugin/Entry.antt =====
-- plug.go, control_plane.go, apollo.go, lifecycle_context.go and cleanup.go: what the framework calls.
-- Its factory and its constants are parameters; a nil interface is `none`.
use lynx_apollo.Base.{Text, literal, Bool, true, List, [], ◌∷◌, Option, none}
use lynx_apollo.Errors.{GoError}
use lynx_apollo.Validator.Result.{Externals}
use lynx_apollo.Plugin.State.{PlugApollo, new_apollo_config_center}
use lynx_apollo.Plugin.Setup.{Framework}
use lynx_apollo.Plugin.Startup.{startup}
use lynx_apollo.Plugin.Cleanup.{cleanup}

abbrev pub plugin_name : Text
plugin_name = literal "apollo.config.center"

-- The prefix of the plugin's settings.
abbrev pub conf_prefix : Text
conf_prefix = literal "lynx.apollo"

-- The init function of plug.go: it registers the constructor under the plugin's name.
unfoldable pub init_plugin : {W : Type 0} → (Text → Text → (Unit {0} → PlugApollo) → W → W) → W → W
init_plugin register_plugin w =
    register_plugin plugin_name conf_prefix (λ u. new_apollo_config_center) w

-- ControlPlaneCapabilities
unfoldable pub control_plane_capabilities : {C : Type 0} → C → C → PlugApollo → List C
control_plane_capabilities capability_config capability_watcher p =
    capability_config ∷ capability_watcher ∷ []

-- HTTPRateLimit
unfoldable pub http_rate_limit : {Middleware : Type 0} → PlugApollo → Option Middleware
http_rate_limit p = none

-- GRPCRateLimit
unfoldable pub grpc_rate_limit : {Middleware : Type 0} → PlugApollo → Option Middleware
grpc_rate_limit p = none

-- NewServiceRegistry
unfoldable pub new_service_registry : {Registrar : Type 0} → PlugApollo → Option Registrar
new_service_registry p = none

-- NewServiceDiscovery
unfoldable pub new_service_discovery : {Discovery : Type 0} → PlugApollo → Option Discovery
new_service_discovery p = none

-- NewNodeRouter
unfoldable pub new_node_router : {NodeFilter : Type 0} → Text → PlugApollo → Option NodeFilter
new_node_router service_name p = none

-- IsContextAware
unfoldable pub is_context_aware : PlugApollo → Bool
is_context_aware p = true

module _ {W : Type 0} ⦃f : Framework W⦄ where
  -- context.Background(), which is never cancelled
  abbrev pub in_background : Framework W
  in_background = record f { ctx_err = λ w. none }

  -- StartupTasksContext
  unfoldable pub startup_tasks_context :
      Externals → PlugApollo × W → (PlugApollo × W) × Option GoError
  unfolding startup
  startup_tasks_context x s = startup x s

  -- StartupTasks
  unfoldable pub startup_tasks : Externals → PlugApollo × W → (PlugApollo × W) × Option GoError
  unfolding startup
  startup_tasks x s = startup ⦃f = in_background⦄ x s

  -- CleanupTasksContext
  unfoldable pub cleanup_tasks_context : PlugApollo × W → (PlugApollo × W) × Option GoError
  unfolding cleanup
  cleanup_tasks_context s = cleanup s

  -- CleanupTasks
  unfoldable pub cleanup_tasks : PlugApollo × W → (PlugApollo × W) × Option GoError
  unfolding cleanup
  cleanup_tasks s = cleanup ⦃f = in_background⦄ s
