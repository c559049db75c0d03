-- ===== src/Plugin/Provenance.antt =====
-- config.go and watchers.go: where the values in the cache come from.
pub mod History
use lynx_apollo.Base.{
  ◌≡◌, refl, sym, subst, ◌⊎◌, inl, inr, Text, true, false, if◌then◌else◌, List, [], ◌∷◌, Option,
  none, some, arith, Option-cases, Bool-cases,
}
use lynx_apollo.Errors.{GoError}
use lynx_apollo.Metrics.{record_cache_miss, record_config_operation}
use lynx_apollo.Client.State.{Client, ConfigResponse, Http, Result}
use lynx_apollo.Client.Requests.{lookup, get_config_value as fetch_value}
use lynx_apollo.Client.Values.{IsFetched, get_config_value-served}
use lynx_apollo.Resilience.Machine.{Machine}
use lynx_apollo.Resilience.Breaker.{CircuitBreaker}
use lynx_apollo.Resilience.Breaker.Guard.{guarded, guarded-keeps}
use lynx_apollo.Resilience.Retry.{RetryManager}
use lynx_apollo.Resilience.Retry.Cost.{do_with_retry-keeps}
use lynx_apollo.Plugin.State.{PlugApollo, check_initialized, get_namespace}
use lynx_apollo.Plugin.Values.{
  cache_key, put, cache_enabled, store_value, get_config_value_from_apollo, settle_call, Call,
  call_machine, breaker_machine, attempt_read, new_call, attempts, with_components, finish,
  get_config_value,
}
use lynx_apollo.Plugin.Health.{check_machine}
use lynx_apollo.Plugin.Watching.{remove, handle_changes, handle_config_changed}
use lynx_apollo.Plugin.Entries.{lookup-put_cases, lookup-remove-some}
use lynx_apollo.Watcher.State.{Pairs}

-- A response of the server, to a request of a namespace that shares the cache's key, has the value.
abbrev pub Provided : {W : Type 0} → Http W → Text → Text → Type 0
Provided http k value =
    (namespace : Text) × (key : Text) × (cache_key namespace key ≡ k)
    × ((r : ConfigResponse) × IsFetched http namespace r
        × (lookup key r.configurations ≡ some value))

abbrev pub AllProvided : {W : Type 0} → Http W → List (Text × Text) → Type 0
AllProvided http cache = (k value : Text) → lookup k cache ≡ some value → Provided http k value

put-AllProvided :
    {W : Type 0} (http : Http W) (k value : Text) (cache : List (Text × Text))
    → AllProvided http cache
    → Provided http k value
    → AllProvided http (put k value cache)
put-AllProvided http k value cache h new j v found =
    elim (lookup-put_cases j k value v cache found) [
      | inl (same, equal) ↦
          subst (λ t. Provided http t v) (sym same) (subst (Provided http k) (sym equal) new)
      | inr old ↦ h j v old
    ]

remove-AllProvided :
    {W : Type 0} (http : Http W) (k : Text) (cache : List (Text × Text))
    → AllProvided http cache
    → AllProvided http (remove k cache)
remove-AllProvided http k cache h j v found = h j v (lookup-remove-some j k v cache found)

pub changes-AllProvided :
    {W : Type 0} (http : Http W) (namespace : Text) (kvs : Pairs) (p : PlugApollo)
    → AllProvided http p.config_cache
    → AllProvided http (handle_changes namespace kvs p).config_cache
unfolding handle_changes handle_config_changed
changes-AllProvided http namespace [] p h = h
changes-AllProvided http namespace ((k, v) ∷ kvs) p h =
    changes-AllProvided http namespace kvs (handle_config_changed namespace k p)
      (remove-AllProvided http (cache_key namespace k) p.config_cache h)

module _ {W : Type 0} ⦃http : Http W⦄ where
  store-AllProvided :
      (namespace key : Text) (out : (Client × W) × Result Text) (p : PlugApollo)
      → AllProvided http p.config_cache
      → ((value : Text) → out.1 ≡ Result.ok value → Provided http (cache_key namespace key) value)
      → AllProvided http (store_value namespace key out p).0.0.config_cache
  unfolding store_value
  store-AllProvided namespace key ((c, w), Result.err e) p h new = h
  store-AllProvided namespace key ((c, w), Result.ok v) p h new =
      elim (cache_enabled p)
        as (λ b.
          AllProvided http
            (if b then put (cache_key namespace key) v p.config_cache else p.config_cache)) [
              | true ↦
                  put-AllProvided http (cache_key namespace key) v p.config_cache h (new v refl)
              | false ↦ h
            ]

  fetched-Provided :
      (namespace key value : Text) (c : Client) (w : W)
      → (fetch_value namespace key (c, w)).1 ≡ Result.ok value
      → Provided http (cache_key namespace key) value
  fetched-Provided namespace key value c w got = (
    namespace,
    key,
    refl,
    get_config_value-served namespace key value (c, w) (fetch_value namespace key (c, w)).0
        (ground arith),
  )

  -- A read leaves the cache as it was, or stores what it fetched.
  from_apollo_cases :
      (namespace key : Text) (p : PlugApollo) (w : W)
      → ((get_config_value_from_apollo namespace key (p, w)).0.0.config_cache ≡ p.config_cache)
        ⊎ ((c : Client) × (q : PlugApollo) × (q.config_cache ≡ p.config_cache)
            × (get_config_value_from_apollo namespace key (p, w)
                ≡ store_value namespace key (fetch_value namespace key (c, w)) q))
  unfolding get_config_value_from_apollo
  from_apollo_cases namespace key p w = elim (Option-cases p.client) [
    | inl gone ↦ inl (ground arith)
    | inr (c, is) ↦ elim (Bool-cases (cache_enabled p)) [
      | inr off ↦ inr (c, p, refl, ground arith)
      | inl on ↦ elim (Option-cases (lookup (cache_key namespace key) p.config_cache)) [
        | inl missing ↦ inr (
          c,
          record p { metrics = record_cache_miss (get_namespace p) p.metrics },
          refl,
          ground arith,
        )
        | inr (v, hit) ↦ inl (ground arith)
      ]
    ]
  ]

  from_apollo-AllProvided :
      (namespace key : Text) (p : PlugApollo) (w : W)
      → AllProvided http p.config_cache
      → AllProvided http (get_config_value_from_apollo namespace key (p, w)).0.0.config_cache
  from_apollo-AllProvided namespace key p w h = elim (from_apollo_cases namespace key p w) [
    | inl same ↦ subst (AllProvided http) (sym same) h
    | inr (c, q, same, stored) ↦
        subst (λ out. AllProvided http out.0.0.config_cache) (sym stored)
          (store-AllProvided namespace key (fetch_value namespace key (c, w)) q
            (subst (AllProvided http) (sym same) h)
            (λ value got. fetched-Provided namespace key value c w got))
  ]

  settled-AllProvided :
      (c : Call W) (out : (PlugApollo × W) × Result Text)
      → AllProvided http out.0.0.config_cache
      → AllProvided http (settle_call c out).0.plugin.config_cache
  settled-AllProvided c ((p, w), Result.ok v) h = h
  settled-AllProvided c ((p, w), Result.err e) h = h

  attempt_read-AllProvided :
      (namespace key : Text) (c : Call W)
      → AllProvided http c.plugin.config_cache
      → AllProvided http (attempt_read namespace key c).0.plugin.config_cache
  unfolding attempt_read
  attempt_read-AllProvided namespace key c h =
      settled-AllProvided c (get_config_value_from_apollo namespace key (c.plugin, c.world))
        (from_apollo-AllProvided namespace key c.plugin c.world h)

module _ {W : Type 0} ⦃http : Http W⦄ ⦃m : Machine W⦄ where
  attempts-AllProvided :
      (r : RetryManager) (cb : CircuitBreaker) (namespace key : Text) (s : PlugApollo × W)
      → AllProvided http s.0.config_cache
      → AllProvided http (attempts r cb namespace key s).0.0.plugin.config_cache
  unfolding attempts
  attempts-AllProvided r cb namespace key (p, w) h =
      do_with_retry-keeps r (guarded (attempt_read namespace key))
        (λ s. AllProvided http s.0.plugin.config_cache)
        (λ s k.
          guarded-keeps (λ (c : Call W). AllProvided http c.plugin.config_cache) (λ c k. k)
            (attempt_read namespace key) s (attempt_read-AllProvided namespace key) k)
        (λ d s k. k) (new_call p w, cb) h

  finish-cache :
      (namespace : Text) (out : (Call W × CircuitBreaker) × Option GoError)
      → (finish namespace out).0.0.config_cache ≡ out.0.0.plugin.config_cache
  unfolding finish
  finish-cache namespace (s, none) = refl
  finish-cache namespace (s, some e) = refl

  with_components-AllProvided :
      (breaker : Option CircuitBreaker) (retry : Option RetryManager) (namespace key : Text)
      (s : PlugApollo × W)
      → AllProvided http s.0.config_cache
      → AllProvided http (with_components breaker retry namespace key s).0.0.config_cache
  unfolding with_components
  with_components-AllProvided (some cb) (some r) namespace key s h =
      subst (AllProvided http) (sym (finish-cache namespace (attempts r cb namespace key s)))
        (attempts-AllProvided r cb namespace key s h)
  with_components-AllProvided none retry namespace key s h = h
  with_components-AllProvided (some cb) none namespace key s h = h

  pub get_config_value-AllProvided :
      (namespace key : Text) (p : PlugApollo) (w : W)
      → AllProvided http p.config_cache
      → AllProvided http (get_config_value namespace key (p, w)).0.0.config_cache
  unfolding get_config_value
  get_config_value-AllProvided namespace key p w h =
      elim (check_initialized p) as (λ o. AllProvided http (gated o).0.0.config_cache) [
        | some e ↦ h
        | none ↦
            with_components-AllProvided p.circuit_breaker p.retry_manager namespace key (started, w)
              h
      ]
    where
      started : PlugApollo
      started = record p { metrics = record_config_operation namespace "get" "start" p.metrics }

      gated : Option GoError → (PlugApollo × W) × Result Text
      gated (some e) = ((p, w), Result.err e)
      gated none = with_components p.circuit_breaker p.retry_manager namespace key (started, w)
