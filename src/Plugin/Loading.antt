-- ===== src/Plugin/Loading.antt =====
-- config.go: what a config source loads, and the watchers that it and the plugin open.
use lynx_apollo.Base.{◌≡◌, literal, Option, none, some, arith, inl, inr, Option-cases}
use lynx_apollo.Errors.{GoError, plain, wrapped}
use lynx_apollo.Client.State.{Client, ConfigResponse, Http, Result, ok, err}
use lynx_apollo.Client.Requests.{get_config}
use lynx_apollo.Client.Values.{Result-cases}
use lynx_apollo.Plugin.State.{PlugApollo, check_initialized}
use lynx_apollo.Plugin.Sources.{Source, Target, nil_client}
use lynx_apollo.Watcher.State.{Pairs, Context, alive, System, start_watcher}
use lynx_apollo.Watcher.System.{new_system}
use lynx_apollo.Watcher.Delivery.{Reloaded}

-- WithContext; a nil context changes nothing.
unfoldable pub with_context : Option Context → Source → Source
with_context none s = s
with_context (some c) s = record s { source_context = some c }

unfoldable pub base_context : Source → Context
base_context s = elim s.source_context [ some c ↦ c | none ↦ alive ]

abbrev pub client_nil : GoError
client_nil = plain (literal "apollo HTTP client is nil")

module _ {W : Type 0} ⦃http : Http W⦄ where
  loaded_pairs : Source → (Client × W) × Result ConfigResponse → (Source × W) × Result Pairs
  loaded_pairs s ((c, w), err e) = (
    (record s { source_client = some c }, w),
    err (wrapped (literal "failed to load config from Apollo: ") e),
  )
  loaded_pairs s ((c, w), ok r) = ((record s { source_client = some c }, w), ok r.configurations)

  -- Load. The client is shared with the plugin; what it caches is kept here with the source.
  unfoldable pub load : Source → W → (Source × W) × Result Pairs
  unfolding loaded_pairs
  load s w = elim s.source_client [
    | none ↦ ((s, w), err client_nil)
    | some c ↦ loaded_pairs s (get_config s.source_namespace (c, w))
  ]

  -- A load answers the pairs of a response that a GetConfig of the source's namespace answered without
  -- an error, and leaves the source as it was but for what its client caches.
  load-Reloaded :
      (s t : Source) (w v : W) (kvs : Pairs)
      → load s w ≡ ((t, v), ok kvs)
      → Reloaded http s.source_namespace kvs × (t.source_namespace ≡ s.source_namespace)
  unfolding load
  load-Reloaded s t w v kvs h = elim (Option-cases s.source_client) [
    | inl gone ↦ absurd (ground arith)
    | inr (c, is) ↦ elim (Result-cases (get_config s.source_namespace (c, w)).1) [
      | inr (e, bad) ↦ absurd (ground arith)
      | inl (r, good) ↦ (((c, w), r, good, ground arith), ground arith)
    ]
  ]

module _ {W : Type 0} where
  -- Watch; the Start of an ApolloConfigWatcher returns no error.
  unfoldable pub watch : Source → W → Result (System W)
  watch s w = elim s.source_client [
    | none ↦ err client_nil
    | some c ↦ ok (start_watcher (base_context s) (new_system s.source_namespace c w))
  ]

-- lynx.StartControlPlaneWatcher, which is given the watcher with its Start.
abbrev pub Starter : Type 0 → Type 0
Starter W = (Context → System W → System W) → Context → System W → System W × Option GoError

-- On an error the watcher is stopped, and nothing leads to it any more.
settle_watch : {W : Type 0} → System W × Option GoError → Result (System W)
settle_watch (s, none) = ok s
settle_watch (s, some e) = err e

module _ {W : Type 0} (start_control_plane_watcher : Starter W) where
  -- WatchControlPlaneConfig
  unfoldable pub watch_control_plane_config : Context → Target → PlugApollo → W → Result (System W)
  unfolding settle_watch
  watch_control_plane_config ctx target p w = elim (check_initialized p) [
    | some e ↦ err e
    | none ↦ elim p.client [
      | none ↦ err nil_client
      | some c ↦
          settle_watch
            (start_control_plane_watcher start_watcher ctx (new_system target.file_name c w))
    ]
  ]
