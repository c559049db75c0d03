-- ===== src/Tests/Watching.antt =====
-- The plugin's watchers at concrete inputs.
use lynx_apollo.Base.{
  ℕ, ◌≡◌, refl, codes, text_eq, Text, List, [], ◌∷◌, true, false, none, some, trim_space, pos,
}
use lynx_apollo.Client.State.{ok}
use lynx_apollo.Client.Requests.{
  get_config, fetch_config, get_config_server, lookup, get_config_value as fetch_value,
}
use lynx_apollo.Client.Servers.{http_prefix, https_prefix, parse_servers}
use lynx_apollo.Client.Servers.{https_prefix}
use lynx_apollo.Plugin.State.{
  PlugApollo, ConfigWatcher, new_apollo_config_center, check_initialized,
}
use lynx_apollo.Plugin.Values.{store_value, cache_key, cache_enabled, get_config_value_from_apollo}
use lynx_apollo.Plugin.Cache.{Holds, colliding_read}
use lynx_apollo.Plugin.Cleanup.{cleanup}
use lynx_apollo.Plugin.Sources.{Target}
use lynx_apollo.Plugin.Loading.{Starter, watch_control_plane_config}
use lynx_apollo.Plugin.Watching.{
  new_config_watcher, set_on_error, set_on_config_changed, stop_config_watcher, existing,
  plugin_watcher, begin_watch, commit_watch, finish_watch, handle_changes, retry_config_watch,
  begin_retry,
}
use lynx_apollo.Plugin.Watching.Changes.{
  overtaken_read_is_stale, changed_key_is_fetched, unlisted_key_is_kept, retry_rebuilds_nothing,
}
use lynx_apollo.Plugin.Watching.Silence.{Watch, new_watch, then, still, stops, dispatch_is_silent}
use lynx_apollo.Plugin.Watching.Sharing.{
  callers_share, run_acts, starts, begins, late_watch_survives,
}
use lynx_apollo.Watcher.State.{Pairs, alive, System, start_watcher}
use lynx_apollo.Watcher.System.{new_system}
use lynx_apollo.Tests.Client.{demo_http, demo_client}
use lynx_apollo.Tests.Plugin.{running, demo_framework}

-- The delivery names the color.
abbrev delivery : Pairs
delivery = (codes "color", codes "red") ∷ []

-- A color and a size are in the cache.
abbrev filled : PlugApollo
filled = record running {
  config_cache = (codes "app:color", codes "blue") ∷ (codes "app:size", codes "9") ∷ [];
}

changed_key_is_fetched_example :
    (get_config_value_from_apollo {W = ℕ}
      (codes "app")
      (codes "color")
      (handle_changes (codes "app") delivery filled, 0)).1
    ≡ (fetch_value {W = ℕ} (codes "app") (codes "color") (demo_client, 0)).1
unfolding new_apollo_config_center lookup
changed_key_is_fetched_example =
    changed_key_is_fetched (codes "app") (codes "color") (codes "red") delivery demo_client filled 0
      refl refl

size_Holds : Holds (codes "app") (codes "size") (codes "9") filled
unfolding new_apollo_config_center lookup cache_enabled cache_key text_eq
size_Holds = (λ e. cc, refl, refl)

unlisted_key_is_kept_example :
    let out =
      get_config_value_from_apollo {W = ℕ}
        (codes "app")
        (codes "size")
        (handle_changes (codes "app") delivery filled, 3) in
    (out.1 ≡ ok (codes "9")) × (out.0.1 ≡ 3)
unfolding lookup text_eq
unlisted_key_is_kept_example =
    unlisted_key_is_kept (codes "app") (codes "size") (codes "9") delivery filled 3 size_Holds refl

fetch_test :
    (fetch_value {W = ℕ} (codes "app") (codes "color") (demo_client, 0)).1 ≡ ok (codes "blue")
unfolding fetch_value get_config fetch_config get_config_server parse_servers trim_space http_prefix
    https_prefix lookup
fetch_test = refl

overtaken_read_is_stale_test :
    let late =
      store_value {W = ℕ}
        (codes "app")
        (codes "color")
        (fetch_value (codes "app") (codes "color") (demo_client, 0))
        (handle_changes (codes "app") delivery running) in
    let again = get_config_value_from_apollo {W = ℕ} (codes "app") (codes "color") (late.0.0, 9) in
    (again.1 ≡ ok (codes "blue")) × (again.0.1 ≡ 9)
unfolding cache_enabled new_apollo_config_center
overtaken_read_is_stale_test =
    overtaken_read_is_stale (codes "app") (codes "color") (codes "blue") delivery demo_client
      running 0 9 refl fetch_test

abbrev watcher_no : ℕ → ConfigWatcher
watcher_no id = plugin_watcher id (codes "app") (some demo_client)

-- Another caller comes first, and starts its watcher.
callers_share_example :
    let q =
      run_acts
        (starts (watcher_no 0) ∷ begins (codes "other") ∷ [])
        (commit_watch (watcher_no 0) running).0 in
    (v : ConfigWatcher) × (v.id ≡ (watcher_no 0).id)
    × ((begin_watch (watcher_no 0).watched q).1 ≡ existing v)
    × ((commit_watch (watcher_no 1) q).1 ≡ existing v)
unfolding plugin_watcher new_config_watcher set_on_error set_on_config_changed
    new_apollo_config_center lookup
callers_share_example =
    callers_share (watcher_no 0) (watcher_no 1)
      (starts (watcher_no 0) ∷ begins (codes "other") ∷ []) running refl refl

late_watch_survives_example :
    let late =
      finish_watch ((cleanup {W = ℕ} (running, 0)).0.0, (begin_watch (codes "app") running).1) in
    (late.1.backed ≡ true)
    × (late.1.stopped ≡ false)
    × (late.0.config_watchers ≡ (codes "app", late.1) ∷ [])
    × ((cleanup {W = ℕ} (late.0, 0)).0.0 ≡ late.0)
unfolding new_apollo_config_center lookup
late_watch_survives_example =
    late_watch_survives (codes "app") demo_client running 0 refl refl refl refl

-- The watcher of the namespace is in the map.
abbrev watching : PlugApollo
watching = record running { config_watchers = (codes "app", watcher_no 0) ∷ [] }

retry_rebuilds_nothing_test :
    (retry_config_watch true (begin_retry running) (codes "app") watching).config_watchers
    ≡ watching.config_watchers
unfolding lookup
retry_rebuilds_nothing_test =
    retry_rebuilds_nothing true running watching (codes "app") (watcher_no 0) refl

abbrev target : Target
target = record { file_name = codes "app"; target_priority = pos 0; target_strategy = [] }

abbrev plain_starter : Starter ℕ
plain_starter start ctx s = (start ctx s, none)

abbrev opened : System ℕ
opened = start_watcher alive (new_system (codes "app") demo_client 0)

open_test : watch_control_plane_config plain_starter alive target running 0 ≡ ok opened
unfolding watch_control_plane_config check_initialized new_apollo_config_center
open_test = refl

abbrev addresses : List Text
addresses = codes "https://b" ∷ []

abbrev stopping : Watch
stopping = record (new_watch (watcher_no 0) (codes "app") running) {
  watcher = stop_config_watcher (watcher_no 0);
}

-- Stop comes before the first step of the dispatch.
dispatch_is_silent_example : stopping.reported ≡ none
dispatch_is_silent_example =
    dispatch_is_silent (watcher_no 0) (codes "app") running stopping (then still stops)

-- The entry of the key `b:c` of the namespace `a`.
abbrev shared : PlugApollo
shared = record running { config_cache = (codes "a:b:c", codes "1") ∷ [] }

shared-Holds : Holds (codes "a") (codes "b:c") (codes "1") shared
unfolding new_apollo_config_center lookup cache_enabled cache_key text_eq
shared-Holds = (λ e. cc, refl, refl)

colliding_read_test :
    let out = get_config_value_from_apollo {W = ℕ} (codes "a:b") (codes "c") (shared, 3) in
    (out.1 ≡ ok (codes "1")) × (out.0.1 ≡ 3)
colliding_read_test =
    colliding_read (codes "a") (codes "b") (codes "c") (codes "1") shared 3 shared-Holds
