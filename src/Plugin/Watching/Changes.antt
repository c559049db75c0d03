-- ===== src/Plugin/Watching/Changes.antt =====
-- watchers.go and config.go: what a delivered change does to later reads, and the dispatch.
use lynx_apollo.Base.{
  ◌≡◌, refl, sym, ◌∙◌, subst, inl, inr, Text, text_eq, text_eq-eq, Bool, true, [], ◌∷◌, none, some,
  arith, Bool-cases,
}
use lynx_apollo.Client.State.{Client, Http, Result}
use lynx_apollo.Client.Requests.{lookup, get_config_value as fetch_value}
use lynx_apollo.Client.Values.{Result-cases}
use lynx_apollo.Plugin.State.{ConfigWatcher, PlugApollo}
use lynx_apollo.Plugin.Values.{store_value, cache_key, cache_enabled, get_config_value_from_apollo}
use lynx_apollo.Plugin.Entries.{lookup-put, lookup-remove, lookup-remove_other, lookup-remove_stays}
use lynx_apollo.Plugin.Cache.{Holds, read_cached_value}
use lynx_apollo.Plugin.Watching.{
  remove, handle_config_changed, handle_changes, retry_config_watch, begin_retry, watch_config,
  begin_watch, finish_watch,
}
use lynx_apollo.Watcher.State.{Pairs}

cache_key-text_eq : (n k j : Text) → text_eq (cache_key n k) (cache_key n j) ≡ text_eq k j
unfolding cache_key text_eq
cache_key-text_eq [] k j = ground arith
cache_key-text_eq (x ∷ n) k j = ground (arith, cache_key-text_eq n k j)

changes_gone :
    (namespace key : Text) (kvs : Pairs) (p : PlugApollo)
    → lookup (cache_key namespace key) p.config_cache ≡ none
    → lookup (cache_key namespace key) (handle_changes namespace kvs p).config_cache ≡ none
unfolding handle_changes handle_config_changed
changes_gone namespace key [] p h = h
changes_gone namespace key ((k, v) ∷ kvs) p h =
    changes_gone namespace key kvs (handle_config_changed namespace k p)
      (lookup-remove_stays (cache_key namespace k) (cache_key namespace key) p.config_cache h)

pub changes_evicted :
    (namespace key value : Text) (kvs : Pairs) (p : PlugApollo)
    → lookup key kvs ≡ some value
    → lookup (cache_key namespace key) (handle_changes namespace kvs p).config_cache ≡ none
unfolding handle_changes handle_config_changed lookup
changes_evicted namespace key value [] p h = absurd (ground arith)
changes_evicted namespace key value ((k, v) ∷ kvs) p h = elim (Bool-cases (text_eq k key)) [
  | inl same ↦ changes_gone namespace key kvs (handle_config_changed namespace k p) (
      subst
        (λ j.
          lookup (cache_key namespace key) (remove (cache_key namespace j) p.config_cache) ≡ none)
        (sym (text_eq-eq k key same)) (lookup-remove (cache_key namespace key) p.config_cache))
  | inr differs ↦
      changes_evicted namespace key value kvs (handle_config_changed namespace k p) (ground arith)
]

changes_kept :
    (namespace key : Text) (kvs : Pairs) (p : PlugApollo)
    → lookup key kvs ≡ none
    → lookup (cache_key namespace key) (handle_changes namespace kvs p).config_cache
      ≡ lookup (cache_key namespace key) p.config_cache
unfolding handle_changes handle_config_changed lookup
changes_kept namespace key [] p h = refl
changes_kept namespace key ((k, v) ∷ kvs) p h = elim (Bool-cases (text_eq k key)) [
  | inl same ↦ absurd (ground arith)
  | inr differs ↦
      changes_kept namespace key kvs (handle_config_changed namespace k p) (ground arith)
      ∙ lookup-remove_other (cache_key namespace k) (cache_key namespace key) p.config_cache
          (cache_key-text_eq namespace k key ∙ differs)
]

changes_client :
    (namespace : Text) (kvs : Pairs) (p : PlugApollo)
    → (handle_changes namespace kvs p).client ≡ p.client
unfolding handle_changes handle_config_changed
changes_client namespace [] p = refl
changes_client namespace ((k, v) ∷ kvs) p =
    changes_client namespace kvs (handle_config_changed namespace k p)

changes_conf :
    (namespace : Text) (kvs : Pairs) (p : PlugApollo)
    → (handle_changes namespace kvs p).conf ≡ p.conf
unfolding handle_changes handle_config_changed
changes_conf namespace [] p = refl
changes_conf namespace ((k, v) ∷ kvs) p =
    changes_conf namespace kvs (handle_config_changed namespace k p)

changes_cache_enabled :
    (namespace : Text) (kvs : Pairs) (p : PlugApollo)
    → cache_enabled p ≡ true
    → cache_enabled (handle_changes namespace kvs p) ≡ true
unfolding cache_enabled
changes_cache_enabled namespace kvs p on = ground (arith, changes_conf namespace kvs p)

Holds-changes :
    (namespace key value : Text) (kvs : Pairs) (p : PlugApollo)
    → Holds namespace key value p
    → lookup key kvs ≡ none
    → Holds namespace key value (handle_changes namespace kvs p)
unfolding cache_enabled
Holds-changes namespace key value kvs p h unlisted = (
  λ e. h.0 (sym (changes_client namespace kvs p) ∙ e),
  changes_cache_enabled namespace kvs p h.1,
  changes_kept namespace key kvs p unlisted ∙ h.2,
)

module _ {W : Type 0} ⦃http : Http W⦄ where
  pub uncached_read :
      (namespace key : Text) (c : Client) (p : PlugApollo) (w : W)
      → p.client ≡ some c
      → lookup (cache_key namespace key) p.config_cache ≡ none
      → (get_config_value_from_apollo namespace key (p, w)).1 ≡ (fetch_value namespace key (c, w)).1
  unfolding get_config_value_from_apollo
  uncached_read namespace key c p w h missing =
      elim (Result-cases (fetch_value namespace key (c, w)).1) [
        | inl (v, good) ↦ ground arith
        | inr (e, bad) ↦ ground arith
      ]

  -- After a delivery with an entry for a key, the next read of that key answers what a request to the server
  -- answers then, with the cache on too.
  pub changed_key_is_fetched :
      (namespace key value : Text) (kvs : Pairs) (c : Client) (p : PlugApollo) (w : W)
      → p.client ≡ some c
      → lookup key kvs ≡ some value
      → (get_config_value_from_apollo namespace key (handle_changes namespace kvs p, w)).1
        ≡ (fetch_value namespace key (c, w)).1
  changed_key_is_fetched namespace key value kvs c p w h changed =
      uncached_read namespace key c (handle_changes namespace kvs p) w
        (changes_client namespace kvs p ∙ h) (changes_evicted namespace key value kvs p changed)

  -- A delivery without an entry for a key that is in the cache leaves the entry there: the next read
  -- answers the old value without a request.
  pub unlisted_key_is_kept :
      (namespace key value : Text) (kvs : Pairs) (p : PlugApollo) (w : W)
      → Holds namespace key value p
      → lookup key kvs ≡ none
      → let out = get_config_value_from_apollo namespace key (handle_changes namespace kvs p, w) in
        (out.1 ≡ Result.ok value) × (out.0.1 ≡ w)
  unlisted_key_is_kept namespace key value kvs p w h unlisted =
      let read =
        read_cached_value namespace key value (handle_changes namespace kvs p) w
          (Holds-changes namespace key value kvs p h unlisted) in
      (read.0, read.1)

  stored-Holds :
      (namespace key value : Text) (out : (Client × W) × Result Text) (p : PlugApollo)
      → cache_enabled p ≡ true
      → out.1 ≡ Result.ok value
      → Holds namespace key value (store_value namespace key out p).0.0
  unfolding store_value cache_enabled
  stored-Holds namespace key value ((c, w), Result.ok u) p on got =
      ground (arith, lookup-put (cache_key namespace key) u p.config_cache)
  stored-Holds namespace key value ((c, w), Result.err e) p on got = absurd (ground arith)

  -- With the cache on, where a delivery comes between the answer to a read's request and its write to
  -- the cache, the read leaves the value that it fetched there, also where the delivery names the key,
  -- and the next read answers that value without a request.
  pub overtaken_read_is_stale :
      (namespace key value : Text) (kvs : Pairs) (c : Client) (p : PlugApollo) (w v : W)
      → cache_enabled p ≡ true
      → (fetch_value namespace key (c, w)).1 ≡ Result.ok value
      → let late =
          store_value namespace key
            (fetch_value namespace key (c, w))
            (handle_changes namespace kvs p) in
        let again = get_config_value_from_apollo namespace key (late.0.0, v) in
        (again.1 ≡ Result.ok value) × (again.0.1 ≡ v)
  overtaken_read_is_stale namespace key value kvs c p w v on got =
      let held =
        stored-Holds namespace key value (fetch_value namespace key (c, w))
          (handle_changes namespace kvs p) (changes_cache_enabled namespace kvs p on) got in
      let read =
        read_cached_value namespace key value
          (store_value namespace key (fetch_value namespace key (c, w))
            (handle_changes namespace kvs p)).0.0
          v held in
      (read.0, read.1)

-- Where the map has a watcher for the namespace when the wait is over, as it has when that watcher
-- failed, retryConfigWatch leaves the map as it is, however it waited: it makes and starts no watcher.
pub retry_rebuilds_nothing :
    (choice : Bool) (earlier p : PlugApollo) (namespace : Text) (v : ConfigWatcher)
    → lookup namespace p.config_watchers ≡ some v
    → (retry_config_watch choice (begin_retry earlier) namespace p).config_watchers
      ≡ p.config_watchers
unfolding retry_config_watch watch_config begin_watch finish_watch
retry_rebuilds_nothing choice earlier p namespace v h = ground arith
