-- ===== src/Plugin/Reload.antt =====
-- apollo.go and metrics.go: InitializeResources a second time in one process.
use lynx_apollo.Base.{◌≡◌, ◌≢◌, sym, subst, ◌∙◌, ap, Text, true, none, arith}
use lynx_apollo.Metrics.{Registry, client_operations_total}
use lynx_apollo.Metrics.Registration.{new_apollo_metrics-taken, new_apollo_metrics-panics}
use lynx_apollo.Validator.Result.{Externals}
use lynx_apollo.Plugin.State.{PlugApollo}
use lynx_apollo.Plugin.Setup.{
  Framework, returned, initialize_resources, init_components, with_metrics,
}
use lynx_apollo.Plugin.Life.{initialize-ok}

abbrev pub first_name : Text
first_name = client_operations_total.collector_name

-- Neither the base plugin nor the configuration takes anything off the registry.
abbrev pub KeepsRegistry : {W : Type 0} → Registry W → Framework W → Type 0
KeepsRegistry {W} reg f =
    (w : W)
    → reg.taken first_name w ≡ true
    → (reg.taken first_name (f.base_initialize w).0 ≡ true)
      × (reg.taken first_name (f.scan w).0.0 ≡ true)

module _ {W : Type 0} ⦃reg : Registry W⦄ ⦃f : Framework W⦄ (x : Externals) where
  load-taken :
      (p : PlugApollo) (w : W)
      → (initialize_resources x (p, w)).1 ≡ returned none
      → reg.taken first_name (initialize_resources x (p, w)).0.1 ≡ true
  unfolding init_components
  load-taken p w h =
      let (c, (good, same)) = initialize-ok x p w h in
      subst (λ s. reg.taken first_name s.0.1 ≡ true) (sym same)
        (new_apollo_metrics-taken (f.scan (f.base_initialize w).0).0.0)

  taken_load-fails :
      (p : PlugApollo) (w : W)
      → KeepsRegistry reg f
      → reg.taken first_name w ≡ true
      → (initialize_resources x (p, w)).1 ≢ returned none
  unfolding init_components with_metrics
  taken_load-fails p w keeps h good =
      let (c, (valid, same)) = initialize-ok x p w good in
      let panics =
        new_apollo_metrics-panics (f.scan (f.base_initialize w).0).0.0 (keeps _ (keeps w h).0).1 in
      let ends = ap (λ s. s.1) (sym same) ∙ good in ground arith

  -- After an InitializeResources that succeeded, no other one in the same process succeeds, whatever
  -- the plugin went through in between, a cleanup included: NewApolloMetrics registers its collectors
  -- again, and panics. `v` is a world in which the names that were registered still are.
  pub second_load_fails :
      (p q : PlugApollo) (w v : W)
      → KeepsRegistry reg f
      → (initialize_resources x (p, w)).1 ≡ returned none
      → (reg.taken first_name (initialize_resources x (p, w)).0.1 ≡ true
          → reg.taken first_name v ≡ true)
      → (initialize_resources x (q, v)).1 ≢ returned none
  second_load_fails p q w v keeps h still = taken_load-fails q v keeps (still (load-taken p w h))
