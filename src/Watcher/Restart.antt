-- ===== src/Watcher/Restart.antt =====
-- watcher_adapter.go: a second Start, and a reload that fails.
use lynx_apollo.Base.{
  ℕ, suc, ◌≤◌, ◌≡◌, ◌≢◌, refl, sym, ap, ◌∙◌, ℤ, subst, text_eq, Bool, true, false, List, [], ◌∷◌,
  arith,
}
use lynx_apollo.Errors.{GoError}
use lynx_apollo.Client.State.{Client, ConfigResponse, Notification, Http, Result, ok, err}
use lynx_apollo.Client.Requests.{get_config, watch_notifications}
use lynx_apollo.Watcher.State.{
  Context, Position, finished, polling, visiting, reloading, System, start_watcher, launched,
  context_canceled, is_stopped, context_at, cancel, is_canceled, alive, canceled, expired,
}
use lynx_apollo.Watcher.Loop.{
  loop_step, step_at, back_off, take_answer, visit, with_poll, with_reload, reloaded, begin_round,
  move_to,
}
use lynx_apollo.Watcher.System.{
  Step, loops, starts, stops, ends, receives, others, Reach, here, next,
}
use lynx_apollo.Watcher.Stopping.{run_loop}
use lynx_apollo.Watcher.Round.{noted, step_visit}

cancel-canceled : (c : Context) → c ≢ expired → is_canceled (cancel c) ≡ true
unfolding cancel
cancel-canceled alive live = refl
cancel-canceled canceled live = refl
cancel-canceled expired live = absurd (live refl)

expired-cancel : is_canceled (cancel expired) ≡ false
unfolding cancel
expired-cancel = refl

module _ {W : Type 0} ⦃http : Http W⦄ where
  at_finished :
      (q : Position) (choice : Bool) (s : System W)
      → q ≡ finished
      → (step_at q choice s).position ≡ s.position
  unfolding step_at
  at_finished q choice s h = subst (λ q. (step_at q choice s).position ≡ s.position) (sym h) refl

  Step-finished : {s t : System W} → Step s t → s.position ≡ finished → t.position ≡ finished
  Step-finished {s} (loops choice) h = unfold loop_step in (at_finished s.position choice s h ∙ h)
  Step-finished {s} (starts parent) h = unfold start_watcher launched in ap launched h
  Step-finished stops h = h
  Step-finished (ends c on) h = h
  Step-finished (receives choice kvs took) h = h
  Step-finished (others c w) h = h

  Reach-finished : {s t : System W} → Reach s t → s.position ≡ finished → t.position ≡ finished
  Reach-finished here h = h
  Reach-finished (next r st) h = Step-finished st (Reach-finished r h)

  started_again_canceled :
      (g : ℕ) (parent : Context) (s : System W)
      → g ≤ s.watcher.generation
      → context_at s.watcher g ≢ expired
      → context_canceled (start_watcher parent s).watcher g ≡ true
  unfolding context_canceled start_watcher context_at
  started_again_canceled g parent s h live =
      ground (arith, cancel-canceled (context_at s.watcher g) live)

  poll_fails :
      (g : ℕ) (e : GoError) (s : System W) (out : (Client × W) × Result (List Notification))
      (b : Bool)
      → context_canceled s.watcher g ≡ true
      → out.1 ≡ err e
      → (loop_step b (with_poll g out s)).position ≡ finished
  unfolding loop_step step_at with_poll take_answer
  poll_fails g e s ((c, w), err e') b gone failed = unfold context_canceled in ground arith
  poll_fails g e s ((c, w), ok ns) b gone failed = absurd (ground arith)

  -- Where Start is called again while the loop polls, in a context whose deadline has not passed, and
  -- the poll fails, as it does on a context that is cancelled, the loop ends, and nothing that anyone
  -- does later launches it again.
  pub second_start_ends_loop :
      (g : ℕ) (id : ℤ) (e : GoError) (parent : Context) (s t : System W) (a b : Bool)
      → g ≤ s.watcher.generation
      → context_at s.watcher g ≢ expired
      → (watch_notifications s.watcher.namespace id s.watcher.notification_timeout
          (s.client, s.world)).1
        ≡ err e
      → Reach (loop_step b (loop_step a (start_watcher parent (move_to (polling g id) s)))) t
      → t.position ≡ finished
  second_start_ends_loop g id e parent s t a b older live failed r = Reach-finished r (
      unfold start_watcher launched loop_step step_at in
      poll_fails g e (start_watcher parent (move_to (polling g id) s))
        (watch_notifications s.watcher.namespace id s.watcher.notification_timeout
          (s.client, s.world))
        b (started_again_canceled g parent s older live) failed)

  started_again_live :
      (g : ℕ) (parent : Context) (s : System W)
      → g ≤ s.watcher.generation
      → context_at s.watcher g ≡ expired
      → context_canceled (start_watcher parent s).watcher g ≡ false
  unfolding context_canceled start_watcher context_at
  started_again_live g parent s h late =
      ground (arith, ap (λ c. is_canceled (cancel c)) late ∙ expired-cancel)

  poll_goes_on :
      (g : ℕ) (e : GoError) (s : System W) (out : (Client × W) × Result (List Notification))
      (b d : Bool)
      → context_canceled s.watcher g ≡ false
      → is_stopped s.watcher.stage ≡ false
      → out.1 ≡ err e
      → (loop_step d (loop_step true (loop_step b (with_poll g out s)))).position
        ≡ polling s.watcher.generation s.watcher.notification_id
  unfolding loop_step step_at with_poll take_answer begin_round back_off
  poll_goes_on g e s ((c, w), err e') b d live on failed = unfold context_canceled in ground arith
  poll_goes_on g e s ((c, w), ok ns) b d live on failed = absurd (ground arith)

  -- Where Start is called again while the loop polls, in a context whose deadline has passed, and the
  -- poll fails, while `stopCh` is open, the loop backs off, and polls again in the context of that
  -- Start, for what is newer than the same id.
  pub second_start_after_deadline :
      (g : ℕ) (id : ℤ) (e : GoError) (parent : Context) (s : System W) (a b d : Bool)
      → g ≤ s.watcher.generation
      → context_at s.watcher g ≡ expired
      → is_stopped s.watcher.stage ≡ false
      → (watch_notifications s.watcher.namespace id s.watcher.notification_timeout
          (s.client, s.world)).1
        ≡ err e
      → (run_loop
          (a ∷ b ∷ true ∷ d ∷ [])
          (start_watcher parent (move_to (polling g id) s))).position
        ≡ polling (suc s.watcher.generation) s.watcher.notification_id
  unfolding run_loop
  second_start_after_deadline g id e parent s a b d older late on failed =
      unfold start_watcher launched loop_step step_at in
      poll_goes_on g e (start_watcher parent (move_to (polling g id) s))
        (watch_notifications s.watcher.namespace id s.watcher.notification_timeout
          (s.client, s.world))
        b d (started_again_live g parent s older late) on failed

  reload_fails :
      (g : ℕ) (ns : List Notification) (e : GoError) (s : System W)
      (out : (Client × W) × Result ConfigResponse)
      → context_canceled s.watcher g ≡ false
      → out.1 ≡ err e
      → with_reload g ns out s
        ≡ move_to (visiting g ns) (record s { client = out.0.0; world = out.0.1 })
  unfolding with_reload reloaded
  reload_fails g ns e s ((c, w), err e') live failed = ground arith
  reload_fails g ns e s ((c, w), ok r) live failed = absurd (ground arith)

  step_reload :
      (g : ℕ) (e : GoError) (s : System W) (b : Bool)
      → context_canceled s.watcher g ≡ false
      → (get_config s.watcher.namespace (s.client, s.world)).1 ≡ err e
      → loop_step b (move_to (reloading g []) s)
        ≡ move_to (visiting g []) (record s {
          client = (get_config s.watcher.namespace (s.client, s.world)).0.0;
          world = (get_config s.watcher.namespace (s.client, s.world)).0.1;
        })
  unfolding loop_step step_at
  step_reload g e s b live failed =
      reload_fails g [] e (move_to (reloading g []) s)
        (get_config s.watcher.namespace (s.client, s.world)) live failed

  noted_live :
      (g : ℕ) (n : Notification) (s : System W)
      → context_canceled s.watcher g ≡ false
      → context_canceled (noted n s).watcher g ≡ false
  unfolding context_canceled
  noted_live g n s live = live

  round_again :
      (g : ℕ) (s : System W) (c d : Bool)
      → is_stopped s.watcher.stage ≡ false
      → loop_step d (loop_step c (move_to (visiting g []) s))
        ≡ move_to (polling s.watcher.generation s.watcher.notification_id) s
  unfolding loop_step step_at visit begin_round
  round_again g s c d on = ground arith

  -- Where the reload for the last notification of a poll fails, on a context that is not cancelled and
  -- with `stopCh` open, the loop's next poll asks for what is newer than that change, and nothing has
  -- been sent for it.
  pub failed_reload_is_lost :
      (g : ℕ) (n : Notification) (e : GoError) (s : System W) (a b c d : Bool)
      → text_eq n.notified_namespace s.watcher.namespace ≡ true
      → context_canceled s.watcher g ≡ false
      → is_stopped s.watcher.stage ≡ false
      → (get_config s.watcher.namespace (s.client, s.world)).1 ≡ err e
      → ((run_loop (a ∷ b ∷ c ∷ d ∷ []) (move_to (visiting g (n ∷ [])) s)).position
          ≡ polling s.watcher.generation n.notification_id)
        × ((run_loop (a ∷ b ∷ c ∷ d ∷ []) (move_to (visiting g (n ∷ [])) s)).sent ≡ s.sent)
  failed_reload_is_lost g n e s a b c d same live on failed =
      let answer = get_config s.watcher.namespace (s.client, s.world) in
      let lost = record (noted n s) { client = answer.0.0; world = answer.0.1 } in
      let path : run_loop (a ∷ b ∷ c ∷ d ∷ []) (move_to (visiting g (n ∷ [])) s)
          ≡ move_to (polling s.watcher.generation n.notification_id) lost =
        ap (λ u. loop_step d (loop_step c (loop_step b u))) (step_visit g n [] s a same)
        ∙ ap (λ u. loop_step d (loop_step c u))
            (step_reload g e (noted n s) b (noted_live g n s live) failed)
        ∙ round_again g lost c d on in
      (ap (λ u. u.position) path, ap (λ u. u.sent) path)
