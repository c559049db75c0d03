-- ===== src/Plugin/Targets.antt =====
-- config.go: the config sources and the watch targets name the same namespaces.
use lynx_apollo.Base.{
  ◌≡◌, refl, Text, is_empty, false, List, [], ◌∷◌, map, Option, none, some, arith, Option-cases,
  inl, inr,
}
use lynx_apollo.Conf.{Apollo, ServiceConfig}
use lynx_apollo.Client.State.{Client, ok}
use lynx_apollo.Plugin.State.{PlugApollo, check_initialized}
use lynx_apollo.Plugin.Sources.{
  Source, Target, source_for, get_config_source, main_namespace, additional_namespace, load_sources,
  additional_sources, get_config_sources, additional_targets, targets_of, get_config_watch_targets,
}

module _ (p : PlugApollo) (c : Apollo) (k : Client) where
  -- A running plugin, with its configuration, which names a namespace, and its client.
  abbrev Runs : Type 0
  Runs =
      (check_initialized p ≡ none)
      × (p.client ≡ some k)
      × (p.conf ≡ some c)
      × (is_empty c.namespace ≡ false)

  get_config_source-ok : Runs → (n : Text) → get_config_source n p ≡ some (ok (source_for c k n))
  unfolding get_config_source
  get_config_source-ok h n = ground arith

  sources_of : ServiceConfig → List Text → List Source
  sources_of s [] = []
  sources_of s (n ∷ ns) = source_for c k (additional_namespace c s n) ∷ sources_of s ns

  load_sources-ok :
      Runs
      → (s : ServiceConfig) (ns : List Text) → load_sources p c s ns ≡ some (ok (sources_of s ns))
  unfolding load_sources sources_of
  load_sources-ok h s [] = refl
  load_sources-ok h s (n ∷ ns) =
      rw (get_config_source-ok h (additional_namespace c s n), load_sources-ok h s ns)

  same_additional :
      Runs
      → (s : ServiceConfig) (ns : List Text)
      → map (λ t. t.source_namespace) (sources_of s ns)
        ≡ map (λ t. t.file_name) (additional_targets c s ns)
  unfolding sources_of additional_targets source_for additional_namespace
  same_additional h s [] = refl
  same_additional h s (n ∷ ns) = ground (arith, same_additional h s ns)

  all_sources : Option ServiceConfig → List Source
  unfolding sources_of
  all_sources none = source_for c k (main_namespace c) ∷ []
  all_sources (some s) = source_for c k (main_namespace c) ∷ sources_of s s.additional_namespaces

  get_config_sources-ok : Runs → get_config_sources p ≡ some (ok (all_sources c.service_config))
  unfolding get_config_sources additional_sources all_sources
  get_config_sources-ok h = elim (Option-cases c.service_config) [
    | inl unset ↦ ground (arith, get_config_source-ok h (main_namespace c))
    | inr (s, set) ↦ ground (
      arith,
      get_config_source-ok h (main_namespace c),
      load_sources-ok h s s.additional_namespaces,
    )
  ]

  same_names :
      Runs
      → map (λ t. t.source_namespace) (all_sources c.service_config)
        ≡ map (λ t. t.file_name) (targets_of c)
  unfolding all_sources targets_of source_for main_namespace
  same_names h = elim (Option-cases c.service_config) [
    | inl unset ↦ ground arith
    | inr (s, set) ↦ ground (arith, same_additional h s s.additional_namespaces)
  ]

  -- On a running plugin whose configuration names a namespace (without one they may differ)
  -- GetConfigSources and GetConfigWatchTargets succeed, and the sources that are loaded have the
  -- namespaces of the targets that are watched, in the same order.
  pub sources_match_targets :
      check_initialized p ≡ none
      → p.client ≡ some k
      → p.conf ≡ some c
      → is_empty c.namespace ≡ false
      → (ss : List Source) × (ts : List Target) × (get_config_sources p ≡ some (ok ss))
        × (get_config_watch_targets p ≡ some (ok ts))
        × (map (λ t. t.source_namespace) ss ≡ map (λ t. t.file_name) ts)
  unfolding get_config_watch_targets
  sources_match_targets up has_client has_conf named =
      let h : Runs = (up, has_client, has_conf, named) in
      (
        all_sources c.service_config,
        targets_of c,
        get_config_sources-ok h,
        ground arith,
        same_names h,
      )
