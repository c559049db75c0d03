-- ===== src/Watcher/Stopping.antt =====
-- watcher_adapter.go: the loop ends after Stop has closed `stopCh`, which is what Stop waits for.
use lynx_apollo.Base.{
  ℕ, suc, ◌+◌, ◌*◌, ◌≤◌, ◌≡◌, refl, sym, subst, inl, inr, Bool, true, false, List, [], ◌∷◌, length,
  arith, Bool-cases,
}
use lynx_apollo.Client.State.{Client, ConfigResponse, Notification, Http, Result, ok, err}
use lynx_apollo.Client.Requests.{get_config, watch_notifications}
use lynx_apollo.Watcher.State.{
  stopped, Position, unstarted, top, backing_off, finished, polling, answered, visiting, reloading,
  sending, System,
}
use lynx_apollo.Watcher.Loop.{
  loop_step, step_at, begin_round, take_answer, visit, reloaded, with_reload, put, send_or_stop,
  back_off, with_poll,
}

abbrev pub is_running : Position → Bool
is_running unstarted = false
is_running finished = false
is_running _ = true

abbrev answer_length : Result (List Notification) → ℕ
answer_length (ok ns) = length ns
answer_length (err e) = 0

module _ {W : Type 0} ⦃http : Http W⦄ where
  -- The steps that the loop may still take once `stopCh` is closed.
  abbrev steps_at : Position → System W → ℕ
  steps_at unstarted s = 0
  steps_at finished s = 0
  steps_at top s = 1
  steps_at backing_off s = 2
  steps_at (visiting g ns) s = 2 + 3 * length ns
  steps_at (sending kvs g ns) s = 3 + 3 * length ns
  steps_at (reloading g ns) s = 4 + 3 * length ns
  steps_at (answered g r) s = 3 + 3 * answer_length r
  steps_at (polling g id) s =
      4
      + 3
        * answer_length
            (watch_notifications s.watcher.namespace id s.watcher.notification_timeout
              (s.client, s.world)).1

  abbrev pub steps_left : System W → ℕ
  steps_left s = steps_at s.position s

  -- One step fewer is left, and the watcher is still stopped.
  abbrev Descends : ℕ → System W → Type 0
  Descends n t = (suc (steps_left t) ≤ n) × (t.watcher.stage ≡ stopped)

  with_reload-Descends :
      (g : ℕ) (ns : List Notification) (out : (Client × W) × Result ConfigResponse) (s : System W)
      → s.watcher.stage ≡ stopped
      → Descends (4 + 3 * length ns) (with_reload g ns out s)
  unfolding with_reload reloaded
  with_reload-Descends g ns ((c, w), ok r) s h = (omega arith, h)
  with_reload-Descends g ns ((c, w), err e) s h = ground arith

  step_at-Descends :
      (q : Position) (choice : Bool) (s : System W)
      → s.watcher.stage ≡ stopped
      → is_running q ≡ true
      → Descends (steps_at q s) (step_at q choice s)
  unfolding step_at begin_round take_answer visit send_or_stop put back_off with_poll
  step_at-Descends unstarted choice s h r = absurd (ground arith)
  step_at-Descends finished choice s h r = absurd (ground arith)
  step_at-Descends top choice s h r = ground arith
  step_at-Descends (polling g id) choice s h r = (omega arith, h)
  step_at-Descends (answered g (err e)) choice s h r = ground arith
  step_at-Descends (answered g (ok ns)) choice s h r = (omega arith, h)
  step_at-Descends (visiting g []) choice s h r = (omega arith, h)
  step_at-Descends (visiting g (n ∷ ns)) choice s h r = ground arith
  step_at-Descends (reloading g ns) choice s h r =
      with_reload-Descends g ns (get_config s.watcher.namespace (s.client, s.world)) s h
  step_at-Descends (sending kvs g ns) choice s h r = ground arith
  step_at-Descends backing_off choice s h r = ground arith

  loop_step-Descends :
      (choice : Bool) (s : System W)
      → s.watcher.stage ≡ stopped
      → is_running s.position ≡ true
      → Descends (steps_left s) (loop_step choice s)
  unfolding loop_step
  loop_step-Descends choice s h r = step_at-Descends s.position choice s h r

  step_at_rests :
      (q : Position) (choice : Bool) (s : System W) → is_running q ≡ false → step_at q choice s ≡ s
  unfolding step_at
  step_at_rests unstarted choice s h = refl
  step_at_rests finished choice s h = refl
  step_at_rests top choice s h = absurd (ground arith)
  step_at_rests backing_off choice s h = absurd (ground arith)
  step_at_rests (polling g id) choice s h = absurd (ground arith)
  step_at_rests (answered g r) choice s h = absurd (ground arith)
  step_at_rests (visiting g ns) choice s h = absurd (ground arith)
  step_at_rests (reloading g ns) choice s h = absurd (ground arith)
  step_at_rests (sending kvs g ns) choice s h = absurd (ground arith)

  loop_step_rests :
      (choice : Bool) (s : System W) → is_running s.position ≡ false → loop_step choice s ≡ s
  unfolding loop_step
  loop_step_rests choice s h = step_at_rests s.position choice s h

  -- Steps of the loop, each with its choice.
  abbrev pub run_loop : List Bool → System W → System W
  run_loop [] s = s
  run_loop (choice ∷ choices) s = run_loop choices (loop_step choice s)

  run_rests :
      (choices : List Bool) (s : System W)
      → is_running s.position ≡ false
      → is_running (run_loop choices s).position ≡ false
  run_rests [] s h = h
  run_rests (choice ∷ choices) s h =
      subst (λ t. is_running (run_loop choices t).position ≡ false)
        (sym (loop_step_rests choice s h)) (run_rests choices s h)

  at_end : (q : Position) (s : System W) → steps_at q s ≤ 0 → is_running q ≡ false
  at_end q s h = ground arith

  -- Once Stop has closed `stopCh`, the loop comes to its end within a number of its own steps that its
  -- position bounds, whichever cases its selects take and whether anyone reads the channel. So the
  -- wait at the end of Stop ends.
  pub stop_ends_loop :
      (choices : List Bool) (s : System W)
      → s.watcher.stage ≡ stopped
      → steps_left s ≤ length choices
      → is_running (run_loop choices s).position ≡ false
  stop_ends_loop [] s h few = at_end s.position s few
  stop_ends_loop (choice ∷ choices) s h few = elim (Bool-cases (is_running s.position)) [
    | inr rests ↦ run_rests (choice ∷ choices) s rests
    | inl runs ↦
        let (fewer, still) = loop_step-Descends choice s h runs in
        stop_ends_loop choices (loop_step choice s) still (omega (arith, fewer, few))
  ]
