-- ===== src/Locks/Order.antt =====
-- The order in which locks are taken, and which lock guards a field.
use lynx_apollo.Base.{ℕ, Bool, true, false, ◌&&◌, List, [], ◌∷◌, ◌/◌, ltb}
use lynx_apollo.Locks.{
  Resource, watcher_mutex, plugin_mu, cache_mutex, client_mu, breaker_mu, config_mu, adapter_mu,
  client, metrics, retry_manager, circuit_breaker, health_check_ch, watchers_variable, watchers_map,
  cache_variable, cache_map, config_server, breaker_state, on_change, on_error, backing,
  watch_context, notification, cancel_watch, Hold, Action, acquire, release, await, read, write,
  peek, poke, holds, holds_exclusively, Field, kind,
}

-- While a thread holds a resource, it takes and awaits only those of higher rank.
abbrev pub rank : Resource → ℕ
rank r = kind r / 10

-- The lock that guards a field.
abbrev pub guard : Field → Resource
guard client = plugin_mu
guard metrics = plugin_mu
guard retry_manager = plugin_mu
guard circuit_breaker = plugin_mu
guard health_check_ch = plugin_mu
guard watchers_variable = watcher_mutex
guard watchers_map = watcher_mutex
guard cache_variable = cache_mutex
guard cache_map = cache_mutex
guard config_server = client_mu
guard breaker_state = breaker_mu
guard (on_change n) = config_mu n
guard (on_error n) = config_mu n
guard (backing n) = config_mu n
guard (watch_context n) = adapter_mu n
guard (notification n) = adapter_mu n
guard (cancel_watch n) = adapter_mu n

-- The fields that are also read without their lock: by the cleanup, by retryConfigWatch, by the health
-- check and publishRuntimeResources, by the latter, and by the Stop of an ApolloConfigWatcher.
abbrev pub peeked : Field → Bool
peeked metrics = true
peeked health_check_ch = true
peeked watchers_variable = true
peeked cache_variable = true
peeked (cancel_watch n) = true
peeked f = false

-- The fields that InitializeResources writes without their lock.
abbrev pub poked : Field → Bool
poked metrics = true
poked retry_manager = true
poked circuit_breaker = true
poked f = false

unfoldable pub below : Resource → List Hold → Bool
below r [] = true
below r (h ∷ hs) = ltb (rank h.resource) (rank r) && below r hs

-- A thread takes its locks in order, reads and writes a field with its lock, but for the fields above,
-- and ends with none.
unfoldable pub checks : List Hold → List Action → Bool
checks [] [] = true
checks (h ∷ hs) [] = false
checks hs (acquire m r ∷ todo) = below r hs && checks (record { mode = m; resource = r } ∷ hs) todo
checks [] (release ∷ todo) = false
checks (h ∷ hs) (release ∷ todo) = checks hs todo
checks hs (await r ∷ todo) = below r hs && checks hs todo
checks hs (read f ∷ todo) = holds (guard f) hs && checks hs todo
checks hs (peek f ∷ todo) = peeked f && checks hs todo
checks hs (write f ∷ todo) = holds_exclusively (guard f) hs && checks hs todo
checks hs (poke f ∷ todo) = poked f && checks hs todo
