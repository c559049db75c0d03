-- ===== src/Plugin/Sources.antt =====
-- config.go: the config sources and the watch targets. `none` is a panic, on a configuration that is
-- nil; the errors keep their texts.
use lynx_apollo.Base.{
  Text, codes, literal, is_empty, List, [], ◌∷◌, ◌++◌, Option, none, some, if◌then◌else◌, ℤ, pos,
}
use lynx_apollo.Conf.{Apollo, ServiceConfig, default_namespace}
use lynx_apollo.Errors.{GoError, wrapped, new_init_error}
use lynx_apollo.Client.State.{Client, Result, ok, err}
use lynx_apollo.Plugin.State.{PlugApollo, check_initialized}
use lynx_apollo.Watcher.State.{Context, alive}

-- ApolloConfigSource. The client and the context may be nil.
pub record Source : Type 0 where
  pub source_client : Option Client
  pub source_app_id : Text
  pub source_cluster : Text
  pub source_namespace : Text
  pub source_context : Option Context

-- lynx.ControlPlaneConfigTarget, the fields that are set
pub record Target : Type 0 where
  pub file_name : Text
  pub target_priority : ℤ
  pub target_strategy : Text

abbrev or_else : Text → Text → Text
or_else s t = if is_empty s then t else s

abbrev pub nil_client : GoError
nil_client = new_init_error (literal "Apollo client is nil")

unfoldable pub new_apollo_config_source : Option Client → Text → Text → Text → Source
new_apollo_config_source client app_id cluster namespace = record {
  source_client = client;
  source_app_id = app_id;
  source_cluster = cluster;
  source_namespace = namespace;
  source_context = some alive;
}

unfoldable pub source_for : Apollo → Client → Text → Source
unfolding new_apollo_config_source
source_for c k name =
    new_apollo_config_source (some k) c.app_id c.cluster (or_else name c.namespace)

with_conf : {A : Type 0} → Option Apollo → (Apollo → A) → Option A
with_conf none f = none
with_conf (some c) f = some (f c)

-- GetConfig; the group is ignored.
unfoldable pub get_config_source : Text → PlugApollo → Option (Result Source)
unfolding source_for with_conf
get_config_source name p = elim (check_initialized p) [
  | some e ↦ some (err e)
  | none ↦ elim p.client [
    | none ↦ some (err nil_client)
    | some k ↦ with_conf p.conf (λ c. ok (source_for c k name))
  ]
]

-- The namespace of the main source.
unfoldable pub main_namespace : Apollo → Text
main_namespace c = elim c.service_config [
  | none ↦ or_else c.namespace default_namespace
  | some s ↦ or_else s.service_namespace c.namespace
]

unfoldable pub additional_namespace : Apollo → ServiceConfig → Text → Text
additional_namespace c s n = or_else (or_else n s.service_namespace) c.namespace

-- The source of one more namespace, put before those of the rest.
add_source :
    Text → Option (Result Source) → Option (Result (List Source)) → Option (Result (List Source))
add_source name none rest = none
add_source name (some (err e)) rest =
    some (err (wrapped (literal "failed to load additional config " ++ (name ++ codes ": ")) e))
add_source name (some (ok s)) none = none
add_source name (some (ok s)) (some (err e)) = some (err e)
add_source name (some (ok s)) (some (ok ss)) = some (ok (s ∷ ss))

unfoldable pub load_sources :
    PlugApollo → Apollo → ServiceConfig → List Text → Option (Result (List Source))
unfolding add_source
load_sources p c s [] = some (ok [])
load_sources p c s (n ∷ ns) =
    let rest = load_sources p c s ns in
    add_source (additional_namespace c s n) (get_config_source (additional_namespace c s n) p) rest

-- getAdditionalConfigSources
unfoldable pub additional_sources : PlugApollo → Apollo → Option (Result (List Source))
unfolding load_sources
additional_sources p c = elim c.service_config [
  | none ↦ some (ok [])
  | some s ↦ load_sources p c s s.additional_namespaces
]

-- The end of GetConfigSources: the main source, then the others.
join_sources :
    Option (Result Source) → Option (Result (List Source)) → Option (Result (List Source))
join_sources none rest = none
join_sources (some (err e)) rest =
    some (err (wrapped (literal "failed to get main config source: ") e))
join_sources (some (ok s)) none = none
join_sources (some (ok s)) (some (err e)) =
    some (err (wrapped (literal "failed to get additional config sources: ") e))
join_sources (some (ok s)) (some (ok ss)) = some (ok (s ∷ ss))

sources_with : PlugApollo → Option Apollo → Option (Result (List Source))
unfolding join_sources
sources_with p none = none
sources_with p (some c) =
    join_sources (get_config_source (main_namespace c) p) (additional_sources p c)

-- GetConfigSources
unfoldable pub get_config_sources : PlugApollo → Option (Result (List Source))
unfolding sources_with
get_config_sources p = elim (check_initialized p) [
  | some e ↦ some (err e)
  | none ↦ sources_with p p.conf
]

-- The targets of the additional namespaces; one that stays empty is left out.
unfoldable pub additional_targets : Apollo → ServiceConfig → List Text → List Target
additional_targets c s [] = []
additional_targets c s (n ∷ ns) =
    let rest = additional_targets c s ns in
    if is_empty (additional_namespace c s n)
    then rest
    else record {
      file_name = additional_namespace c s n;
      target_priority = s.priority;
      target_strategy = s.merge_strategy;
    }
      ∷ rest

unfoldable pub targets_of : Apollo → List Target
unfolding additional_targets
targets_of c = elim c.service_config [
  | none ↦
      record {
        file_name = or_else c.namespace default_namespace;
        target_priority = pos 0;
        target_strategy = [];
      }
      ∷ []
  | some s ↦
      record {
        file_name = or_else (or_else s.service_namespace c.namespace) default_namespace;
        target_priority = s.priority;
        target_strategy = s.merge_strategy;
      }
      ∷ additional_targets c s s.additional_namespaces
]

-- GetConfigWatchTargets
unfoldable pub get_config_watch_targets : PlugApollo → Option (Result (List Target))
unfolding with_conf targets_of
get_config_watch_targets p = elim (check_initialized p) [
  | some e ↦ some (err e)
  | none ↦ with_conf p.conf (λ c. ok (targets_of c))
]
