-- ===== src/Plugin/Watching.antt =====
-- watchers.go: the watchers that the plugin hands out, and what a change does to it. A callback is nil
-- or the one that WatchConfig sets.
pub mod Changes
pub mod Sharing
pub mod Silence
pub mod Order
pub mod Handle
use lynx_apollo.Base.{
  ℕ, suc, ◌==◌, Text, text_eq, Bool, true, false, not, ◌&&◌, List, [], ◌∷◌, Option, none, some,
  if◌then◌else◌,
}
use lynx_apollo.Conf.{Apollo}
use lynx_apollo.Metrics.{record_config_operation, record_config_change}
use lynx_apollo.Client.State.{Client, Result}
use lynx_apollo.Client.Requests.{lookup}
use lynx_apollo.Plugin.State.{
  ConfigWatcher, PlugApollo, is_initialized, is_destroyed, not_initialized_error,
}
use lynx_apollo.Plugin.Values.{cache_key, put}
use lynx_apollo.Watcher.State.{
  Pairs, ApolloConfigWatcher, Polled, delivered, failed, waiting, is_closed, select_next,
  watcher_stopped,
}

-- NewConfigWatcher; `id` names the object.
unfoldable pub new_config_watcher : ℕ → Text → ConfigWatcher
new_config_watcher id namespace = record {
  id = id;
  watched = namespace;
  has_on_change = false;
  has_on_error = false;
  watcher_client = none;
  started = false;
  backed = false;
  stopped = false;
}

-- SetOnConfigChanged, with the callback that WatchConfig sets
unfoldable pub set_on_config_changed : ConfigWatcher → ConfigWatcher
set_on_config_changed w = record w { has_on_change = true }

-- SetOnError, likewise
unfoldable pub set_on_error : ConfigWatcher → ConfigWatcher
set_on_error w = record w { has_on_error = true }

-- The watcher that WatchConfig makes.
unfoldable pub plugin_watcher : ℕ → Text → Option Client → ConfigWatcher
unfolding set_on_error set_on_config_changed new_config_watcher
plugin_watcher id namespace client =
    set_on_error
      (set_on_config_changed (record (new_config_watcher id namespace) { watcher_client = client }))

has_client : Option Client → Bool
has_client none = false
has_client (some c) = true

-- ConfigWatcher.Start; the Start of an ApolloConfigWatcher returns no error.
unfoldable pub start_config_watcher : ConfigWatcher → ConfigWatcher
unfolding has_client
start_config_watcher w =
    if w.started then w else record w { started = true; backed = has_client w.watcher_client }

-- ConfigWatcher.Stop, but for the ApolloConfigWatcher (Watcher) and the wait.
unfoldable pub stop_config_watcher : ConfigWatcher → ConfigWatcher
stop_config_watcher w = record w { stopped = true }

-- delete(m, k)
unfoldable pub remove : {A : Type 0} → Text → List (Text × A) → List (Text × A)
unfolding text_eq
remove k [] = []
remove k ((j, v) ∷ m) = let rest = remove k m in if text_eq j k then rest else (j, v) ∷ rest

-- handleConfigChanged
unfoldable pub handle_config_changed : Text → Text → PlugApollo → PlugApollo
unfolding remove
handle_config_changed namespace key p = record p {
  metrics = record_config_change namespace p.metrics;
  config_cache = remove (cache_key namespace key) p.config_cache;
}

-- The changes of one delivery, in the order of its list.
unfoldable pub handle_changes : Text → Pairs → PlugApollo → PlugApollo
unfolding handle_config_changed
handle_changes namespace [] p = p
handle_changes namespace ((key, value) ∷ kvs) p =
    handle_changes namespace kvs (handle_config_changed namespace key p)

retry_enabled : Option Apollo → Bool
retry_enabled none = false
retry_enabled (some c) = c.enable_retry

-- handleConfigWatchError; the Boolean says that retryConfigWatch is launched. On a configuration that
-- is nil the code would panic; a watcher is made by an initialized plugin only, which has one (Calls).
unfoldable pub handle_config_watch_error : Text → PlugApollo → PlugApollo × Bool
unfolding retry_enabled
handle_config_watch_error namespace p = (
  record p { metrics = record_config_operation namespace "watch" "error" p.metrics },
  retry_enabled p.conf,
)

-- The first half of WatchConfig: a watcher that is there, or a new one that is not in the map yet.
pub data Found : Type 0 where
  existing : ConfigWatcher → Found
  fresh : ConfigWatcher → Found

unfoldable pub begin_watch : Text → PlugApollo → PlugApollo × Found
begin_watch namespace p = elim (lookup namespace p.config_watchers) [
  | some w ↦ (p, existing w)
  | none ↦ (
    record p { next_watcher = suc p.next_watcher },
    fresh (plugin_watcher p.next_watcher namespace p.client),
  )
]

-- The second half, under the write lock: the watcher in the map, which is the new one unless another
-- came first; then the new one is stopped.
unfoldable pub commit_watch : ConfigWatcher → PlugApollo → PlugApollo × Found
commit_watch w p = elim (lookup w.watched p.config_watchers) [
  | some v ↦ (p, existing v)
  | none ↦ (record p { config_watchers = put w.watched w p.config_watchers }, fresh w)
]

-- The watcher in the map is the one that a caller holds.
is_same : ConfigWatcher → Option ConfigWatcher → Bool
is_same w none = false
is_same w (some v) = v.id == w.id

-- Start, on a watcher that the map may hold.
unfoldable pub start_in : ConfigWatcher → PlugApollo → PlugApollo
unfolding is_same
start_in w p =
    if is_same w (lookup w.watched p.config_watchers)
    then record p { config_watchers = put w.watched (start_config_watcher w) p.config_watchers }
    else p

conclude : PlugApollo × Found → PlugApollo × ConfigWatcher
conclude (p, existing w) = (p, w)
conclude (p, fresh w) = (start_in w p, start_config_watcher w)

unfoldable pub finish_watch : PlugApollo × Found → PlugApollo × ConfigWatcher
unfolding conclude
finish_watch (p, existing w) = (p, w)
finish_watch (p, fresh w) = conclude (commit_watch w p)

-- The deferred metric
watched_ok : Text → PlugApollo × ConfigWatcher → PlugApollo × Result ConfigWatcher
watched_ok namespace (p, w) = (
  record p { metrics = record_config_operation namespace "watch" "success" p.metrics },
  Result.ok w,
)

-- WatchConfig, when no other goroutine comes in between.
unfoldable pub watch_config : Text → PlugApollo → PlugApollo × Result ConfigWatcher
unfolding watched_ok
watch_config namespace p =
    if is_initialized p
    then watched_ok namespace (
        finish_watch (
          begin_watch namespace
            (record p { metrics = record_config_operation namespace "watch" "start" p.metrics })))
    else (p, Result.err not_initialized_error)

-- Where dispatchLoop stands.
pub data Spot : Type 0 where
  at_top entering selecting over : Spot

-- What Next has come to: the changes are handled; an error is reported unless the watcher is stopped.
-- `none` says that none was, and a Boolean that one was, and whether it launched retryConfigWatch. A
-- callback that is nil is not called.
unfoldable pub dispatch_polled :
    ConfigWatcher → Polled → PlugApollo → (PlugApollo × Spot) × Option Bool
dispatch_polled w (delivered kvs) p =
    ((if w.has_on_change then handle_changes w.watched kvs p else p, at_top), none)
dispatch_polled w (failed e) p =
    if w.stopped
    then ((p, over), none)
    else if w.has_on_error
    then (let (q, again) = handle_config_watch_error w.watched p in ((q, over), some again))
    else ((p, over), none)
dispatch_polled w waiting p = ((p, selecting), none)

-- One step of dispatchLoop. `choice` is that of the select in Next.
unfoldable pub dispatch_step :
    Bool
    → ConfigWatcher
    → ApolloConfigWatcher
    → Spot
    → PlugApollo
    → (PlugApollo × Spot) × Option Bool
unfolding dispatch_polled
dispatch_step choice w aw at_top p = ((p, if w.stopped then over else entering), none)
dispatch_step choice w aw entering p =
    if is_closed aw.stage
    then dispatch_polled w (failed watcher_stopped) p
    else ((p, selecting), none)
dispatch_step choice w aw selecting p = dispatch_polled w (select_next choice aw.stage aw.notify) p
dispatch_step choice w aw over p = ((p, over), none)

-- How retryConfigWatch waits.
pub data Retry : Type 0 where
  on_channel asleep given_up : Retry

unfoldable pub begin_retry : PlugApollo → Retry
begin_retry p = if p.has_channel then on_channel else if is_destroyed p then given_up else asleep

-- The wait is cancelled: the channel is closed, and `choice` does not prefer the timer.
cancels : Bool → Retry → PlugApollo → Bool
cancels choice on_channel p = p.channel_closed && not choice
cancels choice asleep p = false
cancels choice given_up p = true

-- retryConfigWatch from the end of its wait, on the plugin as it is then
unfoldable pub retry_config_watch : Bool → Retry → Text → PlugApollo → PlugApollo
unfolding cancels
retry_config_watch choice how namespace p =
    if cancels choice how p then p else if is_destroyed p then p else (watch_config namespace p).0
