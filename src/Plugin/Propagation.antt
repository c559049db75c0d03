-- ===== src/Plugin/Propagation.antt =====
-- watcher_adapter.go, watchers.go and config.go: from a change on the server to a read.
use lynx_apollo.Base.{
  ℕ, ◌≡◌, refl, sym, ap, ◌∙◌, subst, ℤ, Text, text_eq, Bool, true, List, [], ◌∷◌, Option, none,
  some, arith,
}
use lynx_apollo.Metrics.{Metrics}
use lynx_apollo.Client.State.{Client, ConfigResponse, Notification, Http, Result}
use lynx_apollo.Client.Requests.{lookup, get_config}
use lynx_apollo.Resilience.Machine.{Machine}
use lynx_apollo.Plugin.State.{ConfigWatcher, PlugApollo, check_initialized}
use lynx_apollo.Plugin.Values.{get_config_value}
use lynx_apollo.Plugin.Served.{Able, served_value_is_read}
use lynx_apollo.Plugin.Watching.{
  selecting, at_top, dispatch_step, dispatch_polled, handle_changes, handle_config_changed,
}
use lynx_apollo.Plugin.Watching.Changes.{changes_evicted}
use lynx_apollo.Watcher.State.{
  Pairs, ApolloConfigWatcher, System, polling, running, select_next, is_stopped,
}
use lynx_apollo.Watcher.Loop.{move_to, put}
use lynx_apollo.Watcher.Stopping.{run_loop}
use lynx_apollo.Watcher.Round.{poll_of, reload_of, moved, after_round, round_sends}

-- A delivery changes the metrics and the cache alone.
changes_only :
    (namespace : Text) (kvs : Pairs) (p : PlugApollo)
    → (ms : Option Metrics) × (cache : List (Text × Text)) × (handle_changes namespace kvs p
        ≡ record p { metrics = ms; config_cache = cache })
unfolding handle_changes handle_config_changed
changes_only namespace [] p = (p.metrics, p.config_cache, refl)
changes_only namespace ((k, v) ∷ kvs) p =
    let (ms, cache, same) = changes_only namespace kvs (handle_config_changed namespace k p) in
    (ms, cache, same)

-- A reload that waits is handled by the next step of the dispatch.
dispatch_handles :
    (pick : Bool) (w : ConfigWatcher) (aw : ApolloConfigWatcher) (kvs : Pairs) (p : PlugApollo)
    → aw.stage ≡ running
    → aw.notify ≡ some kvs
    → w.has_on_change ≡ true
    → (dispatch_step pick w aw selecting p).0 ≡ (handle_changes w.watched kvs p, at_top)
unfolding dispatch_step dispatch_polled select_next
dispatch_handles pick w aw kvs p on full set = ground arith

-- With the client as it is.
abbrev pub with_client : Client → PlugApollo → PlugApollo
with_client c p = record p { client = some c }

changes-Able :
    (namespace : Text) (kvs : Pairs) (c : Client) (p : PlugApollo)
    → Able p
    → Able (with_client c (handle_changes namespace kvs p))
unfolding check_initialized
changes-Able namespace kvs c p able =
    let (ms, cache, same) = changes_only namespace kvs p in
    subst (λ q. Able (with_client c q)) (sym same)
      (record {
        retry = able.retry;
        breaker = able.breaker;
        retries = able.retries;
        ready = able.ready;
        has_retry = able.has_retry;
        has_breaker = able.has_breaker;
        not_negative = able.not_negative;
        admits = able.admits;
      })

module _ {W : Type 0} ⦃http : Http W⦄ ⦃m : Machine W⦄ where
  delivered_change_is_read :
      (t : System W) (pick : Bool) (v : ConfigWatcher) (p : PlugApollo) (kvs : Pairs)
      (key named value : Text) (response : ConfigResponse)
      → t.watcher.stage ≡ running
      → t.watcher.notify ≡ some kvs
      → v.has_on_change ≡ true
      → Able p
      → lookup key kvs ≡ some named
      → (get_config v.watched (t.client, t.world)).1 ≡ Result.ok response
      → lookup key response.configurations ≡ some value
      → let q = (dispatch_step pick v t.watcher selecting p).0.0 in
        (get_config_value v.watched key (with_client t.client q, t.world)).1 ≡ Result.ok value
  delivered_change_is_read t pick v p kvs key named value response on full set able names got has =
      subst
        (λ out.
          (get_config_value v.watched key (with_client t.client out.0, t.world)).1
          ≡ Result.ok value)
        (sym (dispatch_handles pick v t.watcher kvs p on full set))
        (served_value_is_read v.watched key value
          (with_client t.client (handle_changes v.watched kvs p)) t.world t.client response
          (changes-Able v.watched kvs t.client p able) refl
          (changes_evicted v.watched key named kvs p names) got has)

  after_round-fills :
      (g : ℕ) (id : ℤ) (n : Notification) (r : ConfigResponse) (s : System W)
      → let t = after_round g id n r s in
        (t.watcher.stage ≡ s.watcher.stage) × (t.watcher.notify ≡ some r.configurations)
  unfolding put
  after_round-fills g id n r s = (refl, refl)

  -- A change on the server reaches the reads, with the cache on too. The answer to a watcher's poll is
  -- one notification for its namespace, the reload succeeds and names the key, the channel is free,
  -- nobody stops the watcher, and the callback of WatchConfig is set. Then after five steps of the loop
  -- and one of the dispatch, which waits in Next, a GetConfigValue of a plugin that is able to read,
  -- through the client that it shares with the watcher, returns what the server answers under the key
  -- by then, whatever the cache had.
  pub change_reaches_reads :
      (g : ℕ) (id : ℤ) (n : Notification) (reload : ConfigResponse) (s : System W)
      (a b c d e pick : Bool) (v : ConfigWatcher) (p : PlugApollo) (key named value : Text)
      (response : ConfigResponse)
      → (poll_of id s).1 ≡ Result.ok (n ∷ [])
      → text_eq n.notified_namespace s.watcher.namespace ≡ true
      → (reload_of (moved (poll_of id s).0 s)).1 ≡ Result.ok reload
      → s.watcher.stage ≡ running
      → s.watcher.notify ≡ none
      → v.has_on_change ≡ true
      → Able p
      → lookup key reload.configurations ≡ some named
      → let t = run_loop (a ∷ b ∷ c ∷ d ∷ e ∷ []) (move_to (polling g id) s) in
        let q = (dispatch_step pick v t.watcher selecting p).0.0 in
        (get_config v.watched (t.client, t.world)).1 ≡ Result.ok response
        → lookup key response.configurations ≡ some value
        → (get_config_value v.watched key (with_client t.client q, t.world)).1 ≡ Result.ok value
  change_reaches_reads g id n reload s a b c d e pick v p key named value response answer same got
        on free set able names now_got now_has =
      let t = run_loop (a ∷ b ∷ c ∷ d ∷ e ∷ []) (move_to (polling g id) s) in
      let round : t ≡ after_round g id n reload s =
        round_sends g id n reload s a b c d e answer same got (ap is_stopped on) free in
      let fills = after_round-fills g id n reload s in
      delivered_change_is_read t pick v p reload.configurations key named value response
        (ap (λ u. u.watcher.stage) round ∙ fills.0 ∙ on)
        (ap (λ u. u.watcher.notify) round ∙ fills.1) set able names now_got now_has
