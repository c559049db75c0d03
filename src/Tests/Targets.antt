-- ===== src/Tests/Targets.antt =====
-- The sources and the watch targets at concrete inputs.
use lynx_apollo.Base.{◌≡◌, refl, codes, List, [], ◌∷◌, map, some, pos}
use lynx_apollo.Conf.{Apollo}
use lynx_apollo.Client.State.{ok}
use lynx_apollo.Plugin.State.{PlugApollo, check_initialized, new_apollo_config_center}
use lynx_apollo.Plugin.Sources.{
  Source, Target, targets_of, additional_namespace, get_config_sources, get_config_watch_targets,
}
use lynx_apollo.Plugin.Targets.{sources_match_targets}
use lynx_apollo.Tests.Client.{demo_client}
use lynx_apollo.Tests.Validator.{sample}
use lynx_apollo.Tests.Plugin.{running}

abbrev merging : Apollo
merging = record sample {
  service_config = some (record {
    service_namespace = [];
    additional_namespaces = codes "shared" ∷ [] ∷ [];
    priority = pos 5;
    merge_strategy = codes "merge";
  });
}

abbrev merged : PlugApollo
merged = record running { conf = some merging }

-- The main namespace, the one that is named, and the default of the empty one.
targets_test :
    map (λ t. t.file_name) (targets_of merging)
    ≡ codes "application" ∷ codes "shared" ∷ codes "application" ∷ []
unfolding targets_of additional_namespace
targets_test = refl

sources_match_targets_example :
    (ss : List Source) × (ts : List Target) × (get_config_sources merged ≡ some (ok ss))
    × (get_config_watch_targets merged ≡ some (ok ts))
    × (map (λ t. t.source_namespace) ss ≡ map (λ t. t.file_name) ts)
unfolding check_initialized new_apollo_config_center
sources_match_targets_example = sources_match_targets merged merging demo_client refl refl refl refl
