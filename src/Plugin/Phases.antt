-- ===== src/Plugin/Phases.antt =====
-- lifecycle_context.go and apollo.go: what the phases of the plugin's life leave behind.
use lynx_apollo.Base.{
  ◌||◌, ◌++◌, ◌≡◌, ◌≢◌, ◌↔◌, sym, subst, ◌∙◌, ap, inl, inr, true, false, Text, List, [], ◌∷◌, map,
  refl, Option, none, some, arith, Option-cases,
}
use lynx_apollo.Conf.{Apollo}
use lynx_apollo.Errors.{GoError}
use lynx_apollo.Metrics.{record_client_operation}
use lynx_apollo.Client.State.{Client, ok, err}
use lynx_apollo.Client.Requests.{close}
use lynx_apollo.Client.Values.{Result-cases}
use lynx_apollo.Plugin.Watching.{stop_config_watcher}
use lynx_apollo.Validator.Result.{Externals}
use lynx_apollo.Plugin.State.{closed_of, PlugApollo, ConfigWatcher}
use lynx_apollo.Plugin.Setup.{Framework}
use lynx_apollo.Plugin.Startup.{
  Phase, run_phases, startup_phases, init_apollo_client, roll_back, start_with, startup,
}
use lynx_apollo.Plugin.Cleanup.{stop_all, cleanup, tear_down}

-- The plugin holds no client and answers no call.
abbrev pub IsDown : PlugApollo → Type 0
IsDown p = (p.initialized ≡ false) × (p.client ≡ none)

-- The plugin while the phases of the startup run.
abbrev pub started : PlugApollo → Client → PlugApollo
started p k = record p {
  client = some k;
  initialized = true;
  metrics = record_client_operation "startup" "start" p.metrics;
}

-- The two logs of a cleanup, in terms of the entries and the client.
stop_all-eq-map :
    (ws : List (Text × ConfigWatcher)) → stop_all ws ≡ map (λ e. stop_config_watcher e.1) ws
unfolding stop_all
stop_all-eq-map [] = refl
stop_all-eq-map ((key, v) ∷ ws) = ap (λ vs. stop_config_watcher v ∷ vs) (stop_all-eq-map ws)

closed_of-eq : (o : Option Client) → closed_of o ≡ elim o [ none ↦ [] | some c ↦ close c ∷ [] ]
unfolding closed_of
closed_of-eq none = refl
closed_of-eq (some c) = refl

module _ {W : Type 0} ⦃f : Framework W⦄ where
  -- Whatever makes a startup fail, a plugin that was down is down again, with its configuration.
  pub startup_fails :
      (x : Externals) (p : PlugApollo) (w : W)
      → IsDown p
      → let out = startup x (p, w) in out.1 ≢ none → IsDown out.0.0 × (out.0.0.conf ≡ p.conf)
  unfolding startup start_with roll_back
  startup_fails x p w h bad = ground arith

  -- Every phase finds the context alive and succeeds.
  abbrev pub AllDone : List (Phase W) → W → Type 0
  AllDone [] w = Unit {0}
  AllDone (ph ∷ phs) w = (f.ctx_err w ≡ none) × ((ph.step w).1 ≡ none) × AllDone phs (ph.step w).0

  run_phases_iff : (phs : List (Phase W)) (w : W) → ((run_phases phs w).1 ≡ none) ↔ AllDone phs w
  unfolding run_phases
  run_phases_iff [] w = ground arith
  run_phases_iff (ph ∷ phs) w = ground (arith, run_phases_iff phs (ph.step w).0)

  -- What a startup needs: a context that is not cancelled, a plugin that is not initialized, a
  -- configuration from which a client can be built, and the success of each phase.
  abbrev pub Starts : Externals → PlugApollo → W → Apollo → Client → Type 0
  Starts x p w c k =
      (f.ctx_err w ≡ none)
      × (p.initialized ≡ false)
      × (p.conf ≡ some c)
      × (init_apollo_client x c ≡ ok k)
      × AllDone (startup_phases (started p k)) w

  start_with-ok :
      (x : Externals) (p : PlugApollo) (w : W) (c : Apollo) (k : Client)
      → init_apollo_client x c ≡ ok k
      → ((start_with x (some c) p w).1 ≡ none) ↔ AllDone (startup_phases (started p k)) w
  unfolding start_with roll_back
  start_with-ok x p w c k e = ground (arith, run_phases_iff (startup_phases (started p k)) w)

  startup-none :
      (x : Externals) (p : PlugApollo) (w : W) → p.conf ≡ none → (startup x (p, w)).1 ≢ none
  unfolding startup start_with
  startup-none x p w e = ground arith

  start_with-err :
      (x : Externals) (p : PlugApollo) (w : W) (c : Apollo) (e : GoError)
      → init_apollo_client x c ≡ err e
      → (start_with x (some c) p w).1 ≢ none
  unfolding start_with
  start_with-err x p w c e h = ground arith

  start_with-state :
      (x : Externals) (p : PlugApollo) (w : W) (c : Apollo) (k : Client)
      → init_apollo_client x c ≡ ok k
      → (start_with x (some c) p w).1 ≡ none
      → (start_with x (some c) p w).0.0 ≡ (
          let q = started p k in
          record q { metrics = record_client_operation "startup" "success" q.metrics })
  unfolding start_with roll_back
  start_with-state x p w c k e h = ground arith

  startup-start_with :
      (x : Externals) (p : PlugApollo) (w : W) (c : Apollo)
      → f.ctx_err w ≡ none
      → p.initialized ≡ false
      → p.conf ≡ some c
      → startup x (p, w) ≡ start_with x (some c) p w
  unfolding startup
  startup-start_with x p w c alive off set = ground arith

  startup-enters :
      (x : Externals) (p : PlugApollo) (w : W)
      → (startup x (p, w)).1 ≡ none
      → (f.ctx_err w ≡ none) × (p.initialized ≡ false)
  unfolding startup
  startup-enters x p w h = ground arith

  start_with-closes :
      (x : Externals) (p : PlugApollo) (w : W) (c : Apollo) (k : Client)
      → init_apollo_client x c ≡ ok k
      → (start_with x (some c) p w).1 ≢ none
      → let q = (start_with x (some c) p w).0.0 in
        IsDown q × (q.closed_clients ≡ p.closed_clients ++ close k ∷ [])
  unfolding start_with roll_back closed_of
  start_with-closes x p w c k made bad = ground arith

  -- A startup that builds a client, and during which a phase fails or finds the context cancelled,
  -- has called Close of that client, once, and left the plugin without it.
  pub failed_startup_closes :
      (x : Externals) (p : PlugApollo) (w : W) (c : Apollo) (k : Client)
      → f.ctx_err w ≡ none
      → p.initialized ≡ false
      → p.conf ≡ some c
      → init_apollo_client x c ≡ ok k
      → ¬ AllDone (startup_phases (started p k)) w
      → let q = (startup x (p, w)).0.0 in
        IsDown q × (q.closed_clients ≡ p.closed_clients ++ close k ∷ [])
  failed_startup_closes x p w c k alive off set made undone =
      let same = startup-start_with x p w c alive off set in
      subst (λ out. IsDown out.0.0 × (out.0.0.closed_clients ≡ p.closed_clients ++ close k ∷ []))
        (sym same)
        (start_with-closes x p w c k made (λ e. undone ((start_with-ok x p w c k made).0 e)))

  -- A startup succeeds exactly when its conditions hold for some configuration and client.
  pub startup_iff :
      (x : Externals) (p : PlugApollo) (w : W)
      → ((startup x (p, w)).1 ≡ none) ↔ ((c : Apollo) × (k : Client) × Starts x p w c k)
  startup_iff x p w = (
    only_if,
    λ (c, k, (alive, off, set, made, done)).
        ap (λ out. out.1) (startup-start_with x p w c alive off set)
        ∙ (start_with-ok x p w c k made).1 done,
  )
    where
      only_if : (startup x (p, w)).1 ≡ none → (c : Apollo) × (k : Client) × Starts x p w c k
      only_if h = elim (Option-cases p.conf) [
        | inl unset ↦ absurd (startup-none x p w unset h)
        | inr (c, set) ↦
            let (alive, off) = startup-enters x p w h in
            let same = ap (λ out. out.1) (startup-start_with x p w c alive off set) in
            elim (Result-cases (init_apollo_client x c)) [
              | inl (k, made) ↦
                  (c, k, (alive, off, set, made, (start_with-ok x p w c k made).0 (sym same ∙ h)))
              | inr (e, bad) ↦ absurd (start_with-err x p w c e bad (sym same ∙ h))
            ]
      ]

  -- After a startup that succeeds the plugin is initialized, has the client that its configuration
  -- asks for, and is otherwise as it was, but for the metrics.
  pub startup_succeeds :
      (x : Externals) (p : PlugApollo) (w : W)
      → (startup x (p, w)).1 ≡ none
      → (c : Apollo) × (k : Client) × (p.conf ≡ some c)
        × (init_apollo_client x c ≡ ok k)
        × ((startup x (p, w)).0.0 ≡ (
            let q = started p k in
            record q { metrics = record_client_operation "startup" "success" q.metrics }))
  startup_succeeds x p w h =
      let (c, k, (alive, off, set, made, done)) = (startup_iff x p w).0 h in
      let same = startup-start_with x p w c alive off set in
      (
        c,
        k,
        set,
        made,
        ap (λ out. out.0.0) same
            ∙ start_with-state x p w c k made ((start_with-ok x p w c k made).1 done),
      )

  -- A cleanup of a running plugin calls Stop of every watcher of the map once, in its order, and Close of
  -- the client if it has one, closes the channel of the health check if there is one, and releases
  -- everything, also when the context is cancelled, which is the only error.
  pub cleanup_releases :
      (p : PlugApollo) (w : W)
      → p.initialized ≡ true
      → p.destroyed ≡ false
      → let out = cleanup (p, w) in
        let q = out.0.0 in
        IsDown q
        × (q.destroyed ≡ true)
        × (q.metrics ≡ none)
        × (q.retry_manager ≡ none)
        × (q.circuit_breaker ≡ none)
        × (q.config_cache ≡ [])
        × (q.config_watchers ≡ [])
        × (q.stopped_watchers
            ≡ p.stopped_watchers ++ map (λ e. stop_config_watcher e.1) p.config_watchers)
        × (q.closed_clients
            ≡ p.closed_clients ++ elim p.client [ none ↦ [] | some c ↦ close c ∷ [] ])
        × (q.channel_closed ≡ (p.channel_closed || p.has_channel))
        × (q.conf ≡ p.conf)
        × (out.0.1 ≡ w)
        × ((out.1 ≡ none) ↔ (f.ctx_err w ≡ none))
  unfolding cleanup tear_down record_client_operation
  cleanup_releases p w i d =
      ground (arith, stop_all-eq-map p.config_watchers, closed_of-eq p.client)

  -- A second cleanup does nothing.
  pub cleanup_twice : (s : PlugApollo × W) → cleanup (cleanup s).0 ≡ ((cleanup s).0, none)
  unfolding cleanup tear_down
  cleanup_twice (p, w) = ground arith
