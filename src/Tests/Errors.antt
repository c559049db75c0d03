-- ===== src/Tests/Errors.antt =====
-- The errors at concrete inputs.
use lynx_apollo.Base.{◌≡◌, ◌↔◌, refl, true, some, codes}
use lynx_apollo.Errors.{
  GoError, plain, timeout, network_error, config_get_failed, init_failed, code_eq, wrap_error,
  error_text, unwrap, new_network_error,
}
use lynx_apollo.Errors.Classes.{
  code_eq_iff, classes, at_most_one, classes_disjoint, wrap_error_keeps,
}

abbrev missing : GoError
missing = plain (codes "config key a not found")

printed :
    error_text (wrap_error (some missing) config_get_failed (codes "failed to get config value"))
    ≡ codes "[CONFIG_GET_FAILED] failed to get config value caused by: config key a not found"
unfolding error_text wrap_error
printed = refl

code_eq_iff_example : (code_eq timeout network_error ≡ true) ↔ (timeout ≡ network_error)
code_eq_iff_example = code_eq_iff timeout network_error

classes_disjoint_test : at_most_one (classes (new_network_error (codes "down"))) ≡ true
classes_disjoint_test = classes_disjoint (new_network_error (codes "down"))

wrap_error_keeps_test :
    unwrap (wrap_error (some missing) init_failed (codes "no client")) ≡ some missing
wrap_error_keeps_test = (wrap_error_keeps missing missing init_failed (codes "no client")).0
