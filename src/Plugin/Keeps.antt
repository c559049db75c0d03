-- ===== src/Plugin/Keeps.antt =====
-- config.go, health.go and watchers.go: what reads, health checks and watchers leave as it was.
use lynx_apollo.Base.{
  [], ◌∷◌, ℕ, ◌<◌, ◌≡◌, ◌≢◌, refl, sym, subst, ◌∙◌, ap, inl, inr, Text, Option, none, some, arith,
  Option-cases,
}
use lynx_apollo.Errors.{GoError}
use lynx_apollo.Metrics.{record_health_check, record_config_operation}
use lynx_apollo.Client.State.{Http, Result}
use lynx_apollo.Client.Values.{Result-cases}
use lynx_apollo.Resilience.Machine.{Machine}
use lynx_apollo.Resilience.Breaker.{CircuitBreaker, before_attempt, record_failure, record_success}
use lynx_apollo.Resilience.Breaker.Guard.{guarded}
use lynx_apollo.Resilience.Retry.{RetryManager, do_with_retry}
use lynx_apollo.Resilience.Retry.Outcome.{Fails, before_attempt_no, do_with_retry_cases}
use lynx_apollo.Plugin.State.{PlugApollo}
use lynx_apollo.Plugin.Values.{
  get_config_value_from_apollo, Call, call_machine, breaker_machine, attempt_read, new_call,
  attempts, with_components, finish, get_config_value,
}
use lynx_apollo.Plugin.Watching.{
  watch_config, finish_watch, begin_watch, commit_watch, start_in, handle_changes,
  handle_config_changed,
}
use lynx_apollo.Watcher.State.{Pairs}
use lynx_apollo.Plugin.Health.{
  health_key, test_namespace, judge, Check, new_check, check_machine, check_client_connection,
  check_config_management_health, attempt_check, check_with, finish_check, check_apollo_health,
  check_health,
}
use lynx_apollo.Plugin.Reads.{before_attempt_no-keeps}

-- What none of them changes.
unfoldable pub Keeps : PlugApollo → PlugApollo → Type 0
Keeps p q =
    (q.conf ≡ p.conf)
    × (q.initialized ≡ p.initialized)
    × (p.client ≢ none → q.client ≢ none)
    × (q.retry_manager ≡ p.retry_manager)

Keeps-trans : (p q r : PlugApollo) → Keeps p q → Keeps q r → Keeps p r
unfolding Keeps
Keeps-trans p q r a b = (b.0 ∙ a.0, b.1 ∙ a.1, λ h. b.2 (a.2 h), b.3 ∙ a.3)

-- What each attempt keeps, and each pause leaves as it is, the loop over them keeps.
do_with_retry-Keeps :
    {S : Type 0} ⦃m : Machine S⦄ (r : RetryManager) (operation : S → S × Option GoError)
    (plugin_of : S → PlugApollo)
    → ((s : S) → Keeps (plugin_of s) (plugin_of (operation s).0))
    → ((d : ℕ) (s : S) → plugin_of (m.sleep d s) ≡ plugin_of s)
    → (s : S) → Keeps (plugin_of s) (plugin_of (do_with_retry r operation s).0)
do_with_retry-Keeps {S} ⦃m⦄ r operation plugin_of attempt pauses s =
    elim (do_with_retry_cases r operation s) [
      | inl (k, lt, (below, good, e)) ↦
          subst (λ t. Keeps (plugin_of s) (plugin_of t)) (ap (λ out. out.0) (sym e))
            (step _ (before k below))
      | inr (below, e) ↦
          subst (λ t. Keeps (plugin_of s) (plugin_of t)) (ap (λ out. out.0) (sym e))
            (before _ below)
    ]
  where
    step :
        (t : S)
        → Keeps (plugin_of s) (plugin_of t)
        → Keeps (plugin_of s) (plugin_of (operation t).0)
    step t h = Keeps-trans _ _ _ h (attempt t)

    before :
        (k : ℕ)
        → ((j : ℕ) → j < k → Fails r operation j s)
        → Keeps (plugin_of s) (plugin_of (before_attempt_no r operation k s))
    before k below =
        before_attempt_no-keeps r operation (λ t. Keeps (plugin_of s) (plugin_of t))
          (λ t err bad h. step t h) (λ d t h. subst (Keeps (plugin_of s)) (sym (pauses d t)) h) k s
          below (unfold Keeps in (refl, refl, λ h. h, refl))

pub watch_config-Keeps : (namespace : Text) (p : PlugApollo) → Keeps p (watch_config namespace p).0
unfolding Keeps watch_config finish_watch begin_watch commit_watch start_in
watch_config-Keeps namespace p = ground arith

pub handle_changes-Keeps :
    (namespace : Text) (kvs : Pairs) (p : PlugApollo) → Keeps p (handle_changes namespace kvs p)
unfolding Keeps handle_changes handle_config_changed
handle_changes-Keeps namespace [] p = (refl, refl, λ h. h, refl)
handle_changes-Keeps namespace ((k, v) ∷ kvs) p =
    handle_changes-Keeps namespace kvs (handle_config_changed namespace k p)

module _ {W : Type 0} ⦃http : Http W⦄ ⦃m : Machine W⦄ where
  from_apollo-Keeps :
      (namespace key : Text) (p : PlugApollo) (w : W)
      → Keeps p (get_config_value_from_apollo namespace key (p, w)).0.0
  unfolding Keeps get_config_value_from_apollo
  from_apollo-Keeps namespace key p w = ground arith

  attempt_read-Keeps :
      (namespace key : Text) (c : Call W) → Keeps c.plugin (attempt_read namespace key c).0.plugin
  unfolding attempt_read Keeps
  attempt_read-Keeps namespace key c =
      elim (Result-cases (get_config_value_from_apollo namespace key (c.plugin, c.world)).1) [
        | inl (v, good) ↦ ground (arith, from_apollo-Keeps namespace key c.plugin c.world)
        | inr (e, bad) ↦ ground (arith, from_apollo-Keeps namespace key c.plugin c.world)
      ]

  guarded-Keeps :
      (namespace key : Text) (s : Call W × CircuitBreaker)
      → Keeps s.0.plugin (guarded (attempt_read namespace key) s).0.0.plugin
  unfolding guarded before_attempt record_failure record_success Keeps
  guarded-Keeps namespace key (c, cb) = ground (
    arith,
    attempt_read-Keeps namespace key c,
    attempt_read-Keeps namespace key (record c { world = (m.read c.world).0 }),
  )

  attempts-Keeps :
      (r : RetryManager) (cb : CircuitBreaker) (namespace key : Text) (p : PlugApollo) (w : W)
      → Keeps p (attempts r cb namespace key (p, w)).0.0.plugin
  unfolding attempts
  attempts-Keeps r cb namespace key p w =
      do_with_retry-Keeps r (guarded (attempt_read namespace key)) (λ s. s.0.plugin)
        (guarded-Keeps namespace key) (λ d s. refl) (new_call p w, cb)

  with_components-Keeps :
      (mb : Option CircuitBreaker) (mr : Option RetryManager) (namespace key : Text)
      (p : PlugApollo) (w : W)
      → Keeps p (with_components mb mr namespace key (p, w)).0.0
  unfolding with_components finish Keeps
  with_components-Keeps (some cb) (some r) namespace key p w =
      elim (Option-cases (attempts r cb namespace key (p, w)).1) [
        | inl good ↦ ground (arith, attempts-Keeps r cb namespace key p w)
        | inr (e, bad) ↦ ground (arith, attempts-Keeps r cb namespace key p w)
      ]
  with_components-Keeps none mr namespace key p w = (refl, refl, λ h. h, refl)
  with_components-Keeps (some cb) none namespace key p w = (refl, refl, λ h. h, refl)

  pub get_config_value-Keeps :
      (namespace key : Text) (p : PlugApollo) (w : W)
      → Keeps p (get_config_value namespace key (p, w)).0.0
  unfolding get_config_value Keeps
  get_config_value-Keeps namespace key p w = ground (
    arith,
    with_components-Keeps p.circuit_breaker p.retry_manager namespace key
        (record p { metrics = record_config_operation namespace "get" "start" p.metrics }) w,
  )

  pub judge_state : (out : (PlugApollo × W) × Result Text) → (judge out).0 ≡ out.0
  unfolding judge
  judge_state out = elim (Result-cases out.1) [
    | inl (v, good) ↦ ground arith
    | inr (e, bad) ↦ ground arith
  ]

  connection-Keeps : (p : PlugApollo) (w : W) → Keeps p (check_client_connection (p, w)).0.0
  unfolding check_client_connection
  connection-Keeps p w =
      subst (λ s. Keeps p s.0)
        (sym (judge_state (get_config_value (test_namespace p.conf) health_key (p, w))))
        (get_config_value-Keeps (test_namespace p.conf) health_key p w)

  pub attempt_check-Keeps : (c : Check W) → Keeps c.plugin (attempt_check c).0.plugin
  unfolding attempt_check check_config_management_health Keeps
  attempt_check-Keeps c = elim (Option-cases (check_client_connection (c.plugin, c.world)).1) [
    | inl good ↦ ground (arith, connection-Keeps c.plugin c.world)
    | inr (e, bad) ↦ ground (arith, connection-Keeps c.plugin c.world)
  ]

  check_attempts-Keeps :
      (r : RetryManager) (p : PlugApollo) (w : W)
      → Keeps p (do_with_retry r attempt_check (new_check p w)).0.plugin
  check_attempts-Keeps r p w =
      do_with_retry-Keeps r attempt_check (λ c. c.plugin) attempt_check-Keeps (λ d c. refl)
        (new_check p w)

  check_with-Keeps :
      (mb : Option CircuitBreaker) (mr : Option RetryManager) (p : PlugApollo) (w : W)
      → Keeps p (check_with mb mr (p, w)).0.0
  unfolding check_with finish_check Keeps
  check_with-Keeps (some cb) (some r) p w =
      elim (Option-cases (do_with_retry r attempt_check (new_check p w)).1) [
        | inl good ↦ ground (arith, check_attempts-Keeps r p w)
        | inr (e, bad) ↦ ground (arith, check_attempts-Keeps r p w)
      ]
  check_with-Keeps none mr p w = (refl, refl, λ h. h, refl)
  check_with-Keeps (some cb) none p w = (refl, refl, λ h. h, refl)

  pub check_health-Keeps : (p : PlugApollo) (w : W) → Keeps p (check_health (p, w)).0.0
  unfolding check_health check_apollo_health Keeps
  check_health-Keeps p w = ground (
    arith,
    check_with-Keeps p.circuit_breaker p.retry_manager
        (record p { metrics = record_health_check "start" p.metrics }) w,
  )
