-- ===== src/Watcher/Round.antt =====
-- watcher_adapter.go: a round of `watchLoop` that ends with a reload in the channel.
use lynx_apollo.Base.{
  ◌++◌, ◌≡◌, refl, ap, ◌∙◌, ℤ, ℕ, text_eq, Bool, true, false, List, [], ◌∷◌, none, arith,
}
use lynx_apollo.Client.State.{Client, ConfigResponse, Notification, Http, Result, ok, err}
use lynx_apollo.Client.Requests.{get_config, watch_notifications}
use lynx_apollo.Watcher.State.{
  Pairs, answered, polling, visiting, reloading, sending, System, is_stopped,
}
use lynx_apollo.Watcher.Loop.{
  loop_step, step_at, move_to, take_answer, visit, with_poll, with_reload, reloaded, put,
  send_or_stop,
}
use lynx_apollo.Watcher.Stopping.{run_loop}

module _ {W : Type 0} where
  -- The watcher has taken note of the change.
  abbrev pub noted : Notification → System W → System W
  noted n s = record s { watcher = record s.watcher { notification_id = n.notification_id } }

  -- The client and the world after a request.
  abbrev pub moved : Client × W → System W → System W
  moved s' s = record s { client = s'.0; world = s'.1 }

  -- A reload more that the loop got.
  abbrev pub logged : ConfigResponse → System W → System W
  logged r s = record s { reloads = s.reloads ++ r.configurations ∷ [] }

module _ {W : Type 0} ⦃http : Http W⦄ where
  -- The poll of a watcher, and its reload.
  abbrev pub poll_of : ℤ → System W → (Client × W) × Result (List Notification)
  poll_of id s =
      watch_notifications s.watcher.namespace id s.watcher.notification_timeout (s.client, s.world)

  abbrev pub reload_of : System W → (Client × W) × Result ConfigResponse
  reload_of s = get_config s.watcher.namespace (s.client, s.world)

  with_poll-ok :
      (g : ℕ) (ns : List Notification) (s : System W)
      (out : (Client × W) × Result (List Notification))
      → out.1 ≡ ok ns
      → with_poll g out s ≡ move_to (answered g (ok ns)) (moved out.0 s)
  unfolding with_poll
  with_poll-ok g ns s ((c, w), ok ms) h = ground arith
  with_poll-ok g ns s ((c, w), err e) h = absurd (ground arith)

  with_reload-ok :
      (g : ℕ) (ns : List Notification) (r : ConfigResponse) (s : System W)
      (out : (Client × W) × Result ConfigResponse)
      → out.1 ≡ ok r
      → with_reload g ns out s ≡ move_to (sending r.configurations g ns) (logged r (moved out.0 s))
  unfolding with_reload reloaded
  with_reload-ok g ns r s ((c, w), ok q) h = ground arith
  with_reload-ok g ns r s ((c, w), err e) h = absurd (ground arith)

  step_poll :
      (g : ℕ) (id : ℤ) (ns : List Notification) (s : System W) (a : Bool)
      → (poll_of id s).1 ≡ ok ns
      → loop_step a (move_to (polling g id) s)
        ≡ move_to (answered g (ok ns)) (moved (poll_of id s).0 s)
  unfolding loop_step step_at
  step_poll g id ns s a h = with_poll-ok g ns (move_to (polling g id) s) (poll_of id s) h

  step_answer :
      (g : ℕ) (ns : List Notification) (s : System W) (a : Bool)
      → loop_step a (move_to (answered g (ok ns)) s) ≡ move_to (visiting g ns) s
  unfolding loop_step step_at take_answer
  step_answer g ns s a = refl

  pub step_visit :
      (g : ℕ) (n : Notification) (ns : List Notification) (s : System W) (a : Bool)
      → text_eq n.notified_namespace s.watcher.namespace ≡ true
      → loop_step a (move_to (visiting g (n ∷ ns)) s) ≡ move_to (reloading g ns) (noted n s)
  unfolding loop_step step_at visit
  step_visit g n ns s a same = ground arith

  step_reload_ok :
      (g : ℕ) (ns : List Notification) (r : ConfigResponse) (s : System W) (a : Bool)
      → (reload_of s).1 ≡ ok r
      → loop_step a (move_to (reloading g ns) s)
        ≡ move_to (sending r.configurations g ns) (logged r (moved (reload_of s).0 s))
  unfolding loop_step step_at
  step_reload_ok g ns r s a h = with_reload-ok g ns r (move_to (reloading g ns) s) (reload_of s) h

  step_send :
      (kvs : Pairs) (g : ℕ) (ns : List Notification) (s : System W) (a : Bool)
      → is_stopped s.watcher.stage ≡ false
      → s.watcher.notify ≡ none
      → loop_step a (move_to (sending kvs g ns) s) ≡ put kvs g ns s
  unfolding loop_step step_at send_or_stop put
  step_send kvs g ns s a on free = ground arith

  -- The state in which a round leaves its notification noted and its reload in the channel.
  abbrev pub after_round : ℕ → ℤ → Notification → ConfigResponse → System W → System W
  after_round g id n r s =
      let polled = noted n (moved (poll_of id s).0 s) in
      put r.configurations g [] (logged r (moved (reload_of polled).0 polled))

  -- Where the answer to a poll is one notification for the namespace, the reload succeeds, the channel
  -- is free and `stopCh` is open, five steps of the loop put the reload into the channel and take note of the
  -- notification.
  pub round_sends :
      (g : ℕ) (id : ℤ) (n : Notification) (r : ConfigResponse) (s : System W) (a b c d e : Bool)
      → (poll_of id s).1 ≡ ok (n ∷ [])
      → text_eq n.notified_namespace s.watcher.namespace ≡ true
      → (reload_of (moved (poll_of id s).0 s)).1 ≡ ok r
      → is_stopped s.watcher.stage ≡ false
      → s.watcher.notify ≡ none
      → run_loop (a ∷ b ∷ c ∷ d ∷ e ∷ []) (move_to (polling g id) s) ≡ after_round g id n r s
  round_sends g id n r s a b c d e answer same got on free =
      let polled = moved (poll_of id s).0 s in
      ap (λ u. run_loop (b ∷ c ∷ d ∷ e ∷ []) u) (step_poll g id (n ∷ []) s a answer)
      ∙ ap (λ u. run_loop (c ∷ d ∷ e ∷ []) u) (step_answer g (n ∷ []) polled b)
      ∙ ap (λ u. run_loop (d ∷ e ∷ []) u) (step_visit g n [] polled c same)
      ∙ ap (λ u. run_loop (e ∷ []) u) (step_reload_ok g [] r (noted n polled) d got)
      ∙ step_send r.configurations g []
          (logged r (moved (reload_of (noted n polled)).0 (noted n polled))) e on free
