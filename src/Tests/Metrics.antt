-- ===== src/Tests/Metrics.antt =====
-- An increment at a concrete input.
use lynx_apollo.Base.{◌≡◌, refl, codes, literal, ◌∷◌, []}
use lynx_apollo.Metrics.{config_operation, collector_of, label_values, config_operations_total}

config_operation_test :
    (collector_of (config_operation (codes "app") "get" "success") ≡ config_operations_total)
    × (label_values (config_operation (codes "app") "get" "success")
        ≡ codes "app" ∷ codes "get" ∷ codes "success" ∷ [])
unfolding collector_of label_values literal
config_operation_test = (refl, refl)
