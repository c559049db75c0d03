-- ===== src/Metrics/Registration.antt =====
-- metrics.go: what the registry makes of a second NewApolloMetrics.
use lynx_apollo.Base.{◌≡◌, Text, text_eq_refl, true, List, [], ◌∷◌, none, arith}
use lynx_apollo.Metrics.{
  Collector, Registry, collectors, register_collectors, new_apollo_metrics, client_operations_total,
  later_collectors,
}

module _ {W : Type 0} ⦃reg : Registry W⦄ where
  -- What is registered stays so.
  register_collectors-taken :
      (cs : List Collector) (w : W) (n : Text)
      → reg.taken n w ≡ true
      → reg.taken n (register_collectors cs w).0 ≡ true
  unfolding register_collectors
  register_collectors-taken [] w n h = h
  register_collectors-taken (c ∷ cs) w n h =
      let kept : reg.taken n (reg.register c w).0 ≡ true =
        ground (arith, reg.taken-register n c w) in
      ground (arith, kept, register_collectors-taken cs (reg.register c w).0 n kept)

  register_collectors-first :
      (c : Collector) (cs : List Collector) (w : W)
      → reg.taken c.collector_name (register_collectors (c ∷ cs) w).0 ≡ true
  unfolding register_collectors
  register_collectors-first c cs w =
      let first : reg.taken c.collector_name (reg.register c w).0 ≡ true =
        ground (arith, reg.taken-register c.collector_name c w, text_eq_refl c.collector_name) in
      ground
        (arith, first, register_collectors-taken cs (reg.register c w).0 c.collector_name first)

  -- A call of NewApolloMetrics, whether it panics or not, leaves the name of the first collector
  -- registered.
  pub new_apollo_metrics-taken :
      (w : W) → reg.taken client_operations_total.collector_name (new_apollo_metrics w).0 ≡ true
  unfolding new_apollo_metrics collectors
  new_apollo_metrics-taken w = register_collectors-first client_operations_total later_collectors w

  -- Where it is registered, NewApolloMetrics panics.
  pub new_apollo_metrics-panics :
      (w : W)
      → reg.taken client_operations_total.collector_name w ≡ true
      → (new_apollo_metrics w).1 ≡ none
  unfolding new_apollo_metrics collectors register_collectors
  new_apollo_metrics-panics w h = ground (arith, reg.register-eq client_operations_total w)
