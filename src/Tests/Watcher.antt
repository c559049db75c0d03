-- ===== src/Tests/Watcher.antt =====
-- The watcher at concrete inputs. The world counts the requests.
use lynx_apollo.Base.{
  ℕ, literal, suc, ◌*◌, second, ◌≡◌, refl, ◌≤◌, codes, text_eq, true, false, [], ◌∷◌, ◌++◌, none,
  some, pos, arith, All,
}
use lynx_apollo.Errors.{GoError, plain, wrapped}
use lynx_apollo.Client.State.{Notification, complete, reply, decoded, Http, err}
use lynx_apollo.Client.Servers.{http_prefix, https_prefix, parse_servers}
use lynx_apollo.Client.Requests.{get_config, get_config_server, watch_notifications, lookup}
use lynx_apollo.Watcher.State.{
  select_next, alive, new_apollo_config_watcher, System, start_watcher, launched, stop_step,
  next_result, delivered, stopped, visiting, polling, finished, context_canceled, context_at,
  expired,
}
use lynx_apollo.Watcher.Loop.{loop_step, begin_round, move_to}
use lynx_apollo.Watcher.System.{
  receive, receives, loops, starts, Reach, here, next, new_system, stop,
}
use lynx_apollo.Watcher.Delivery.{Accounted, delivery_in_order, waiting_in, Reloaded}
use lynx_apollo.Watcher.Stopping.{run_loop, is_running, steps_left, stop_ends_loop}
use lynx_apollo.Watcher.Restart.{
  second_start_ends_loop, second_start_after_deadline, failed_reload_is_lost,
}
use lynx_apollo.Tests.Client.{served, ready_client}

abbrev pub change : Notification
change = record { notified_namespace = codes "application"; notification_id = pos 5 }

abbrev pub watch_http : Http ℕ
watch_http = record {
  request_error = λ u. none;
  send = λ r n. (suc n, reply 200 (complete []));
  decode_config = λ b. decoded served;
  decode_notifications = λ b. decoded (change ∷ []);
  query_escape = λ t. t;
}

abbrev no_route : GoError
no_route = plain (codes "no route to host")

-- No request can be made.
abbrev broken_http : Http ℕ
broken_http = record watch_http { request_error = λ u. some no_route }

abbrev pub fresh : System ℕ
fresh = new_system (codes "application") ready_client 0

abbrev pub started : System ℕ
started = start_watcher alive fresh

-- From the launch to the reload in the channel.
abbrev loaded : System ℕ
loaded = run_loop ⦃http = watch_http⦄ (true ∷ true ∷ true ∷ true ∷ true ∷ true ∷ []) started

-- All of Stop but its wait.
abbrev pub stop_now : System ℕ → System ℕ
stop_now s = stop (stop (stop s))

loaded_test :
    (loaded.watcher.notify ≡ some served.configurations) × (loaded.watcher.notification_id ≡ pos 5)
unfolding loop_step begin_round http_prefix https_prefix lookup get_config launched
    watch_notifications parse_servers start_watcher new_apollo_config_watcher get_config_server
loaded_test = (refl, refl)

loaded-Reach : Reach ⦃http = watch_http⦄ fresh loaded
loaded-Reach =
    next
      (next
        (next (next (next (next (next here (starts alive)) (loops true)) (loops true)) (loops true))
          (loops true))
        (loops true))
      (loops true)

next_test : next_result true loaded.watcher ≡ delivered served.configurations
unfolding next_result loop_step begin_round http_prefix https_prefix lookup get_config launched
    watch_notifications parse_servers start_watcher new_apollo_config_watcher get_config_server
next_test = refl

take_test :
    select_next true loaded.watcher.stage loaded.watcher.notify ≡ delivered served.configurations
unfolding select_next loop_step begin_round http_prefix https_prefix lookup get_config launched
    watch_notifications parse_servers start_watcher new_apollo_config_watcher get_config_server
take_test = refl

-- Next has taken the reload.
abbrev taken : System ℕ
taken = receive served.configurations loaded

delivery_in_order_example :
    Accounted taken.position taken.watcher.stage taken.reloads taken.sent
    × (taken.sent ≡ taken.received ++ waiting_in taken.watcher.notify)
    × All (Reloaded watch_http (codes "application")) taken.sent
delivery_in_order_example =
    delivery_in_order ⦃http = watch_http⦄ (codes "application") ready_client 0 taken
      (next loaded-Reach (receives true served.configurations take_test))

abbrev pub polling_now : System ℕ
polling_now = loop_step ⦃http = watch_http⦄ true started

pub stopped_in_poll : (stop_now polling_now).watcher.stage ≡ stopped
unfolding loop_step start_watcher new_apollo_config_watcher launched begin_round stop_step
stopped_in_poll = refl

pub few_steps : steps_left ⦃http = watch_http⦄ (stop_now polling_now) ≤ 7
unfolding loop_step start_watcher new_apollo_config_watcher launched begin_round stop_step
    watch_notifications get_config_server parse_servers http_prefix https_prefix
few_steps = ground arith

stop_ends_loop_test :
    is_running
      (run_loop ⦃http = watch_http⦄
        (true ∷ true ∷ true ∷ true ∷ true ∷ true ∷ true ∷ [])
        (stop_now polling_now)).position
    ≡ false
stop_ends_loop_test =
    stop_ends_loop ⦃http = watch_http⦄ (true ∷ true ∷ true ∷ true ∷ true ∷ true ∷ true ∷ [])
      (stop_now polling_now) stopped_in_poll few_steps

abbrev not_created : GoError
not_created = wrapped (literal "failed to create request: ") no_route

poll_test :
    (watch_notifications ⦃http = broken_http⦄
      (codes "application")
      (pos 0)
      (60 * second)
      (ready_client, 0)).1
    ≡ err not_created
unfolding watch_notifications get_config_server parse_servers http_prefix https_prefix
poll_test = refl

reload_test :
    (get_config ⦃http = broken_http⦄ (codes "application") (ready_client, 0)).1 ≡ err not_created
unfolding get_config get_config_server parse_servers http_prefix https_prefix
reload_test = refl

second_start_ends_loop_example :
    (loop_step ⦃http = broken_http⦄ true (
      loop_step ⦃http = broken_http⦄ true
        (start_watcher alive (move_to (polling 1 (pos 0)) started)))).position
    ≡ finished
unfolding start_watcher new_apollo_config_watcher
second_start_ends_loop_example =
    second_start_ends_loop ⦃http = broken_http⦄ 1 (pos 0) not_created alive started
      (loop_step ⦃http = broken_http⦄ true (
        loop_step ⦃http = broken_http⦄ true
          (start_watcher alive (move_to (polling 1 (pos 0)) started))))
      true true (ground arith) (λ e. ground arith) poll_test here

-- The deadline of the context that Start was given has passed.
abbrev overdue : System ℕ
overdue = record started { watcher = record started.watcher { context = expired } }

second_start_after_deadline_example :
    (run_loop ⦃http = broken_http⦄
      (true ∷ true ∷ true ∷ true ∷ [])
      (start_watcher alive (move_to (polling 1 (pos 0)) overdue))).position
    ≡ polling (suc overdue.watcher.generation) overdue.watcher.notification_id
unfolding start_watcher new_apollo_config_watcher context_at
second_start_after_deadline_example =
    second_start_after_deadline ⦃http = broken_http⦄ 1 (pos 0) not_created alive overdue true true
      true (ground arith) refl refl poll_test

failed_reload_is_lost_example :
    ((run_loop ⦃http = broken_http⦄
        (true ∷ true ∷ true ∷ true ∷ [])
        (move_to (visiting 1 (change ∷ [])) started)).position
      ≡ polling 1 (pos 5))
    × ((run_loop ⦃http = broken_http⦄
          (true ∷ true ∷ true ∷ true ∷ [])
          (move_to (visiting 1 (change ∷ [])) started)).sent
        ≡ [])
unfolding start_watcher new_apollo_config_watcher context_canceled text_eq
failed_reload_is_lost_example =
    failed_reload_is_lost ⦃http = broken_http⦄ 1 change not_created started true true true true refl
      refl refl reload_test
