-- ===== src/Plugin/Watching/Order.antt =====
-- watchers.go and watcher_adapter.go: a reload takes the entries of a map in the order of a loop over
-- it, which Go does not determine.
use mathlib.Core.Logic.{∥∥₁_elim}
use mathlib.Core.List.{Perm, Permᴰ}
use text.Mathlib.TextEquality.{IsScalar-prop}
use lynx_apollo.Base.{◌≡◌, refl, ◌∙◌, ap, Text, List, [], ◌∷◌, arith}
use lynx_apollo.Metrics.{Sample, record_config_change}
use lynx_apollo.Plugin.State.{PlugApollo}
use lynx_apollo.Plugin.Values.{cache_key}
use lynx_apollo.Plugin.Watching.{remove, handle_config_changed, handle_changes}
use lynx_apollo.Watcher.State.{Pairs}

Sample-set : IsSet Sample
Sample-set = hlevel IsScalar-prop

PlugApollo-set : IsSet PlugApollo
PlugApollo-set = hlevel Sample-set

remove_comm :
    {A : Type 0} (j k : Text) (m : List (Text × A)) → remove j (remove k m) ≡ remove k (remove j m)
unfolding remove
remove_comm j k [] = refl
remove_comm j k ((i, v) ∷ m) = ground (arith, remove_comm j k m)

changed_comm :
    (namespace j k : Text) (p : PlugApollo)
    → handle_config_changed namespace j (handle_config_changed namespace k p)
      ≡ handle_config_changed namespace k (handle_config_changed namespace j p)
unfolding handle_config_changed
changed_comm namespace j k p =
    ap
      (λ (cache : List (Text × Text)). record p {
        metrics = record_config_change namespace (record_config_change namespace p.metrics);
        config_cache = cache;
      })
      (remove_comm (cache_key namespace j) (cache_key namespace k) p.config_cache)

changes_permuted :
    (namespace : Text) (kvs kvs' : Pairs) (p : PlugApollo)
    → Permᴰ kvs kvs'
    → handle_changes namespace kvs p ≡ handle_changes namespace kvs' p
unfolding handle_changes
changes_permuted namespace _ _ p Permᴰ.nil = refl
changes_permuted namespace _ _ p (Permᴰ.cons {a = a} {b = b} {l₁ = l} {l₂ = r} e d) =
    ap (λ (kv : Text × Text). handle_changes namespace l (handle_config_changed namespace kv.0 p)) e
    ∙ changes_permuted namespace l r (handle_config_changed namespace b.0 p) d
changes_permuted namespace _ _ p (Permᴰ.swap {a = a} {b = b} {a' = a'} {b' = b'} {l = l} e e') =
    ap (handle_changes namespace l) (
      changed_comm namespace b.0 a.0 p ∙ λ i.
      handle_config_changed namespace (e i).0 (handle_config_changed namespace (e' i).0 p))
changes_permuted namespace _ _ p (Permᴰ.trans {l₁ = l} {l₂ = m} {l₃ = r} d d') =
    changes_permuted namespace l m p d ∙ changes_permuted namespace m r p d'

-- The order in which the entries of a reload are handled makes no difference to the plugin.
pub reload_order_is_free :
    (namespace : Text) (kvs kvs' : Pairs) (p : PlugApollo)
    → Perm kvs kvs'
    → handle_changes namespace kvs p ≡ handle_changes namespace kvs' p
reload_order_is_free namespace kvs kvs' p same =
    ∥∥₁_elim same
      (PlugApollo-set (handle_changes namespace kvs p) (handle_changes namespace kvs' p))
      (changes_permuted namespace kvs kvs' p)
