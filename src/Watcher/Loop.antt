-- ===== src/Watcher/Loop.antt =====
-- watcher_adapter.go: `watchLoop`, one step at a time. A step ends where another goroutine can come
-- in: at a request, at a select, and where the loop reads what others write.
use lynx_apollo.Base.{
  ℕ, text_eq, Bool, true, false, not, ◌&&◌, ◌||◌, List, [], ◌∷◌, ◌++◌, Option, none, some,
  if◌then◌else◌,
}
use lynx_apollo.Client.State.{Client, ConfigResponse, Notification, Http, Result, ok, err}
use lynx_apollo.Client.Requests.{get_config, watch_notifications}
use lynx_apollo.Watcher.State.{
  Pairs, Position, unstarted, top, backing_off, finished, polling, answered, visiting, reloading,
  sending, System, is_stopped, context_canceled,
}

abbrev pub is_free : Option Pairs → Bool
is_free none = true
is_free (some kvs) = false

module _ {W : Type 0} where
  abbrev pub move_to : Position → System W → System W
  move_to q s = record s { position = q }

  -- The select at the top: `stopCh` is closed, or the loop takes the newest context and the id.
  unfoldable pub begin_round : System W → System W
  begin_round s =
      if is_stopped s.watcher.stage
      then move_to finished s
      else move_to (polling s.watcher.generation s.watcher.notification_id) s

  -- The answer to the poll.
  unfoldable pub take_answer : ℕ → Result (List Notification) → System W → System W
  take_answer g (err e) s =
      if context_canceled s.watcher g then move_to finished s else move_to backing_off s
  take_answer g (ok ns) s = move_to (visiting g ns) s

  -- The loop over the notifications.
  unfoldable pub visit : ℕ → List Notification → System W → System W
  visit g [] s = move_to top s
  visit g (n ∷ ns) s =
      if text_eq n.notified_namespace s.watcher.namespace
      then record s {
        watcher = record s.watcher { notification_id = n.notification_id };
        position = reloading g ns;
      }
      else move_to (visiting g ns) s

  unfoldable pub reloaded : ℕ → List Notification → Result ConfigResponse → System W → System W
  reloaded g ns (err e) s =
      if context_canceled s.watcher g then move_to finished s else move_to (visiting g ns) s
  reloaded g ns (ok r) s = record s {
    position = sending r.configurations g ns;
    reloads = s.reloads ++ r.configurations ∷ [];
  }

  unfoldable pub put : Pairs → ℕ → List Notification → System W → System W
  put kvs g ns s = record s {
    watcher = record s.watcher { notify = some kvs };
    position = visiting g ns;
    sent = s.sent ++ kvs ∷ [];
  }

  -- The select that sends: both of its cases may be ready, and then `choice` says which is taken.
  unfoldable pub send_or_stop : Bool → Pairs → ℕ → List Notification → System W → System W
  unfolding put
  send_or_stop choice kvs g ns s =
      if is_stopped s.watcher.stage && (choice || not (is_free s.watcher.notify))
      then move_to finished s
      else if is_free s.watcher.notify
      then put kvs g ns s
      else s

  -- The back-off of five seconds; `choice` says that the timer is first.
  unfoldable pub back_off : Bool → System W → System W
  back_off choice s =
      if choice then move_to top s else if is_stopped s.watcher.stage then move_to finished s else s

module _ {W : Type 0} ⦃http : Http W⦄ where
  -- GetConfig, likewise.
  unfoldable pub with_reload :
      ℕ → List Notification → (Client × W) × Result ConfigResponse → System W → System W
  unfolding reloaded
  with_reload g ns ((c, w), r) s = reloaded g ns r (record s { client = c; world = w })

  -- The long poll, on the client as it is now.
  unfoldable pub with_poll : ℕ → (Client × W) × Result (List Notification) → System W → System W
  with_poll g ((c, w), r) s = record s { position = answered g r; client = c; world = w }

  unfoldable pub step_at : Position → Bool → System W → System W
  unfolding begin_round take_answer visit with_reload send_or_stop back_off with_poll
  step_at unstarted choice s = s
  step_at top choice s = begin_round s
  step_at (polling g id) choice s =
      with_poll g
        (watch_notifications s.watcher.namespace id s.watcher.notification_timeout
          (s.client, s.world))
        s
  step_at (answered g r) choice s = take_answer g r s
  step_at (visiting g ns) choice s = visit g ns s
  step_at (reloading g ns) choice s =
      with_reload g ns (get_config s.watcher.namespace (s.client, s.world)) s
  step_at (sending kvs g ns) choice s = send_or_stop choice kvs g ns s
  step_at backing_off choice s = back_off choice s
  step_at finished choice s = s

  unfoldable pub loop_step : Bool → System W → System W
  unfolding step_at
  loop_step choice s = step_at s.position choice s
