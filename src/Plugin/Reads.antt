-- ===== src/Plugin/Reads.antt =====
-- config.go, `GetConfigValue`: where the value comes from.
pub mod Rejected
use lynx_apollo.Base.{
  ℕ, if◌then◌else◌, ltb_ℤ, zero, suc, ◌<◌, ◌≡◌, ◌≢◌, ◌∙◌, ap, refl, subst, sym, ◌⊎◌, inl, inr, Text,
  true, false, List, Option, none, some, arith, Bool-cases, Option-cases, pos,
}
use lynx_apollo.Errors.{GoError}
use lynx_apollo.Metrics.{record_config_operation}
use lynx_apollo.Client.State.{Client, ConfigResponse, Http, Result}
use lynx_apollo.Client.Requests.{lookup, get_config_value as fetch_value}
use lynx_apollo.Client.Values.{Result-cases, IsFetched, get_config_value-served}
use lynx_apollo.Resilience.Machine.{Machine}
use lynx_apollo.Resilience.Breaker.{
  CircuitBreaker, CircuitState, closed, half_open, other, opened, before_attempt, record_failure,
  record_success, reset_counters,
}
use lynx_apollo.Resilience.Breaker.Guard.{guarded}
use lynx_apollo.Resilience.Retry.{RetryManager, pause_before_next, pause}
use lynx_apollo.Resilience.Retry.Outcome.{before_attempt_no, Fails, do_with_retry_cases}
use lynx_apollo.Plugin.State.{PlugApollo, check_initialized}
use lynx_apollo.Plugin.Values.{
  cache_key, cache_enabled, get_config_value_from_apollo, Call, call_machine, breaker_machine,
  attempt_read, new_call, attempts, finish, get_config_value, with_components,
}

module _ {ℓ ℓ'} {S : Type ℓ} ⦃m : Machine S⦄ (r : RetryManager) (operation : S → S × Option GoError)
    (P : S → Type ℓ') where
  pause_before_next-keeps :
      ((d : ℕ) (s : S) → P s → P (m.sleep d s))
      → (k : ℕ) (s : S) → P s
      → P (pause_before_next r operation k s)
  unfolding pause_before_next pause
  pause_before_next-keeps sleeps k s h =
      elim (ltb_ℤ (pos k) r.max_retries) as (λ b. P (if b then pause r operation k s else s)) [
        | true ↦ sleeps _ s h
        | false ↦ h
      ]

  -- What a failing attempt keeps and a sleep keeps, all failing attempts together keep.
  pub before_attempt_no-keeps :
      ((s : S) (err : GoError) → (operation s).1 ≡ some err → P s → P (operation s).0)
      → ((d : ℕ) (s : S) → P s → P (m.sleep d s))
      → (k : ℕ) (s : S) → ((j : ℕ) → j < k → Fails r operation j s)
      → P s
      → P (before_attempt_no r operation k s)
  before_attempt_no-keeps fails sleeps zero s below h = h
  before_attempt_no-keeps fails sleeps (suc k) s below h =
      let (err, e) = below k (omega arith) in
      pause_before_next-keeps sleeps k _ (
        fails (before_attempt_no r operation k s) err e
          (before_attempt_no-keeps fails sleeps k s (λ j lt. below j (omega arith)) h))

-- The value stands in the cache under the key, or in a response that was decoded from the body of an
-- answer to a request of the namespace's values.
abbrev pub Sourced : {W : Type 0} → Http W → Text → Text → Text → List (Text × Text) → Type 0
Sourced http namespace key value cache =
    (lookup (cache_key namespace key) cache ≡ some value)
    ⊎ ((r : ConfigResponse) × IsFetched http namespace r
        × (lookup key r.configurations ≡ some value))

is_opened : (s : CircuitState) → (s ≡ opened) ⊎ (s ≢ opened)
is_opened closed = inr (λ e. cc)
is_opened opened = inl refl
is_opened half_open = inr (λ e. cc)
is_opened (other n) = inr (λ e. cc)

module _ {W : Type 0} ⦃http : Http W⦄ ⦃m : Machine W⦄ where
  from_apollo-err :
      (namespace key : Text) (p p' : PlugApollo) (w w' : W) (e : GoError)
      → get_config_value_from_apollo namespace key (p, w) ≡ ((p', w'), Result.err e)
      → p'.config_cache ≡ p.config_cache
  unfolding get_config_value_from_apollo
  from_apollo-err namespace key p p' w w' e h = ground arith

  fetch-ok :
      (namespace key value : Text) (p p' : PlugApollo) (w w' : W)
      → get_config_value_from_apollo namespace key (p, w) ≡ ((p', w'), Result.ok value)
      → (lookup (cache_key namespace key) p.config_cache ≡ some value)
        ⊎ ((c : Client) × (fetch_value namespace key (c, w)).1 ≡ Result.ok value)
  unfolding get_config_value_from_apollo
  fetch-ok namespace key value p p' w w' h = elim (Option-cases p.client) [
    | inl gone ↦ absurd (ground arith)
    | inr (c, is) ↦ elim (Option-cases (lookup (cache_key namespace key) p.config_cache)) [
      | inl missing ↦ inr (c, ground arith)
      | inr (v, hit) ↦ elim (Bool-cases (cache_enabled p)) [
        | inl on ↦ inl (ground arith)
        | inr off ↦ inr (c, ground arith)
      ]
    ]
  ]

  attempt_read-err :
      (namespace key : Text) (c : Call W) (e : GoError)
      → (attempt_read namespace key c).1 ≡ some e
      → (attempt_read namespace key c).0.plugin.config_cache ≡ c.plugin.config_cache
  unfolding attempt_read
  attempt_read-err namespace key c e h =
      elim (Result-cases (get_config_value_from_apollo namespace key (c.plugin, c.world)).1) [
        | inl (v, ok) ↦ absurd (ground arith)
        | inr (f, bad) ↦ ground (
          arith,
          from_apollo-err namespace key c.plugin
              (get_config_value_from_apollo namespace key (c.plugin, c.world)).0.0 c.world
              (get_config_value_from_apollo namespace key (c.plugin, c.world)).0.1 f,
        )
      ]

  guarded-err :
      (namespace key : Text) (s : Call W × CircuitBreaker) (e : GoError)
      → (guarded (attempt_read namespace key) s).1 ≡ some e
      → (guarded (attempt_read namespace key) s).0.0.plugin.config_cache ≡ s.0.plugin.config_cache
  unfolding guarded before_attempt record_failure record_success
  guarded-err namespace key (c, cb) e h = ground (
    arith,
    attempt_read-err namespace key c e,
    attempt_read-err namespace key (record c { world = (m.read c.world).0 }) e,
  )

  attempt_read-ok :
      (namespace key : Text) (c : Call W)
      → (attempt_read namespace key c).1 ≡ none
      → Sourced http namespace key (attempt_read namespace key c).0.value c.plugin.config_cache
  unfolding attempt_read
  attempt_read-ok namespace key c h =
      elim (Result-cases (get_config_value_from_apollo namespace key (c.plugin, c.world)).1) [
        | inr (f, bad) ↦ absurd (ground arith)
        | inl (v, ok) ↦
            elim (fetch-ok namespace key v c.plugin
              (get_config_value_from_apollo namespace key (c.plugin, c.world)).0.0 c.world
              (get_config_value_from_apollo namespace key (c.plugin, c.world)).0.1 (ground arith)) [
                | inl hit ↦ inl (ground arith)
                | inr (k, asked) ↦
                    let (r, fetched, l) =
                      get_config_value-served namespace key v (k, c.world)
                        (fetch_value namespace key (k, c.world)).0 (ground arith) in
                    inr (r, fetched, ground arith)
              ]
      ]

  -- The call in which the attempt runs: a reading of the clock may come first.
  abbrev EntersAt : Call W → Call W → Type 0
  EntersAt c d = (d ≡ c) ⊎ (d ≡ record c { world = (m.read c.world).0 })

  guarded-ran :
      (operation : Call W → Call W × Option GoError) (c : Call W) (cb : CircuitBreaker)
      → (guarded operation (c, cb)).1 ≡ none
      → (d : Call W) × EntersAt c d
        × ((operation d).1 ≡ none)
        × ((guarded operation (c, cb)).0.0.value ≡ (operation d).0.value)
  unfolding guarded before_attempt record_failure record_success reset_counters
  guarded-ran operation c cb h = elim (is_opened cb.state) [
    | inl is_open ↦ (record c { world = (m.read c.world).0 }, inr refl, ground arith, ground arith)
    | inr not_open ↦ (c, inl refl, ground arith, ground arith)
  ]

  guarded-ok :
      (namespace key : Text) (s : Call W × CircuitBreaker)
      → let out = guarded (attempt_read namespace key) s in
        out.1 ≡ none → Sourced http namespace key out.0.0.value s.0.plugin.config_cache
  guarded-ok namespace key (c, cb) h =
      let (d, enters, ran, same) = guarded-ran (attempt_read namespace key) c cb h in
      let source = attempt_read-ok namespace key d ran in
      elim enters [ inl e ↦ ground arith | inr e ↦ ground arith ]

  abbrev pub attempt_of :
      Text → Text → Call W × CircuitBreaker → (Call W × CircuitBreaker) × Option GoError
  attempt_of namespace key = guarded (attempt_read namespace key)

  attempts-ok :
      (r : RetryManager) (namespace key : Text) (p : PlugApollo) (w : W) (cb : CircuitBreaker)
      → let out = attempts r cb namespace key (p, w) in
        out.1 ≡ none → Sourced http namespace key out.0.0.value p.config_cache
  unfolding attempts
  attempts-ok r namespace key p w cb h =
      elim (do_with_retry_cases r (attempt_of namespace key) (new_call p w, cb)) [
        | inr (below, e) ↦ absurd (ground arith)
        | inl (k, lt, (below, good, e)) ↦
            let kept : (before_attempt_no r (attempt_of namespace key) k
                  (new_call p w, cb)).0.plugin.config_cache
                ≡ p.config_cache =
              before_attempt_no-keeps r (attempt_of namespace key)
                (λ s. s.0.plugin.config_cache ≡ p.config_cache)
                (λ s err bad same. guarded-err namespace key s err bad ∙ same) (λ d s same. same) k
                (new_call p w, cb) below refl in
            let found =
              (attempt_of namespace key
                (before_attempt_no r (attempt_of namespace key) k (new_call p w, cb))).0.0.value in
            let source = guarded-ok namespace key _ good in
            subst (λ v. Sourced http namespace key v p.config_cache)
              (ap (λ out. out.0.0.value) (sym e))
              (subst (λ cache. Sourced http namespace key found cache) kept source)
      ]

  with_components-ok :
      (mb : Option CircuitBreaker) (mr : Option RetryManager) (namespace key value : Text)
      (p : PlugApollo) (w : W)
      → (with_components mb mr namespace key (p, w)).1 ≡ Result.ok value
      → Sourced http namespace key value p.config_cache
  unfolding with_components finish
  with_components-ok (some cb) (some r) namespace key value p w h =
      elim (Option-cases (attempts r cb namespace key (p, w)).1) [
        | inl good ↦
            subst (λ v. Sourced http namespace key v p.config_cache) (ground arith)
              (attempts-ok r namespace key p w cb good)
        | inr (e, bad) ↦ absurd (ground arith)
      ]
  with_components-ok none mr namespace key value p w h = cc
  with_components-ok (some cb) none namespace key value p w h = cc

  -- A value that GetConfigValue returns stood in the cache before the call, or in a response that was
  -- decoded from the body of an answer: a failed attempt leaves nothing that a later one could return.
  pub get_config_value_source :
      (namespace key value : Text) (p p' : PlugApollo) (w w' : W)
      → get_config_value namespace key (p, w) ≡ ((p', w'), Result.ok value)
      → Sourced http namespace key value p.config_cache
  unfolding get_config_value
  get_config_value_source namespace key value p p' w w' h =
      elim (Option-cases (check_initialized p)) [
        | inl ready ↦
            with_components-ok p.circuit_breaker p.retry_manager namespace key value
              (record p { metrics = record_config_operation namespace "get" "start" p.metrics }) w
              (ground arith)
        | inr (e, bad) ↦ absurd (ground arith)
      ]
