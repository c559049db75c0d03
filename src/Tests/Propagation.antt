-- ===== src/Tests/Propagation.antt =====
-- Changes, requests and the order of a reload at concrete inputs.
use native.Mathlib.Nat.{le_refl}
use mathlib.Core.List.Perm
use lynx_apollo.Base.{
  ℕ, suc, ◌+◌, ◌*◌, ◌≤◌, ◌≡◌, refl, inl, codes, text_eq, [], ◌∷◌, true, none, some, pos,
}
use lynx_apollo.Client.State.{Http, ok, complete, reply, decoded}
use lynx_apollo.Client.Requests.{get_config, get_config_server, watch_notifications, lookup}
use lynx_apollo.Client.Servers.{http_prefix, https_prefix, parse_servers}
use lynx_apollo.Resilience.Machine.{Machine, plain_clock}
use lynx_apollo.Resilience.Breaker.{new_circuit_breaker}
use lynx_apollo.Resilience.Retry.{rounds}
use lynx_apollo.Plugin.State.{
  PlugApollo, ConfigWatcher, new_apollo_config_center, check_initialized,
}
use lynx_apollo.Plugin.Values.{get_config_value}
use lynx_apollo.Plugin.Health.{check_health}
use lynx_apollo.Plugin.Served.{Able}
use lynx_apollo.Plugin.Propagation.{with_client, change_reaches_reads}
use lynx_apollo.Plugin.Traffic.{Meter, requests_are_bounded}
use lynx_apollo.Plugin.Watching.{
  selecting, dispatch_step, handle_changes, plugin_watcher, new_config_watcher, set_on_error,
  set_on_config_changed,
}
use lynx_apollo.Plugin.Watching.Order.{reload_order_is_free}
use lynx_apollo.Watcher.State.{
  System, Pairs, polling, start_watcher, launched, new_apollo_config_watcher,
}
use lynx_apollo.Watcher.Loop.{loop_step, move_to}
use lynx_apollo.Watcher.Stopping.{run_loop}
use lynx_apollo.Tests.Client.{served, ready_client}
use lynx_apollo.Tests.Plugin.{running, three}
use lynx_apollo.Tests.Watcher.{change, watch_http, started}

-- The cache has an old color.
abbrev old : PlugApollo
old = record running { config_cache = (codes "application:color", codes "red") ∷ [] }

old-Able : Able old
unfolding check_initialized new_apollo_config_center new_circuit_breaker
old-Able = record {
  retry = three;
  breaker = _;
  retries = 3;
  ready = refl;
  has_retry = refl;
  has_breaker = refl;
  not_negative = refl;
  admits = inl refl;
}

abbrev watcher : ConfigWatcher
watcher = plugin_watcher 0 (codes "application") (some ready_client)

-- The loop has put the reload into the channel.
abbrev sent : System ℕ
sent =
    run_loop ⦃http = watch_http⦄ (true ∷ true ∷ true ∷ true ∷ true ∷ [])
      (move_to (polling 1 (pos 0)) started)

abbrev handled : PlugApollo
handled = (dispatch_step true watcher sent.watcher selecting old).0.0

poll_test :
    (watch_notifications ⦃http = watch_http⦄ started.watcher.namespace
      (pos 0)
      started.watcher.notification_timeout
      (started.client, started.world)).1
    ≡ ok (change ∷ [])
unfolding watch_notifications get_config_server parse_servers http_prefix https_prefix start_watcher
    new_apollo_config_watcher
poll_test = refl

reads_test :
    (get_config ⦃http = watch_http⦄ watcher.watched (sent.client, sent.world)).1 ≡ ok served
unfolding loop_step get_config get_config_server parse_servers http_prefix https_prefix
    start_watcher new_apollo_config_watcher watch_notifications launched plugin_watcher
    new_config_watcher set_on_error set_on_config_changed text_eq
reads_test = refl

change_reaches_reads_example :
    (get_config_value ⦃http = watch_http⦄ ⦃m = plain_clock⦄ watcher.watched
      (codes "color")
      (with_client sent.client handled, sent.world)).1
    ≡ ok (codes "blue")
unfolding get_config get_config_server parse_servers http_prefix https_prefix start_watcher
    new_apollo_config_watcher watch_notifications lookup plugin_watcher new_config_watcher
    set_on_error set_on_config_changed
change_reaches_reads_example =
    change_reaches_reads ⦃http = watch_http⦄ ⦃m = plain_clock⦄ 1 (pos 0) change served started true
      true true true true true watcher old (codes "color") (codes "blue") (codes "blue") served
      poll_test refl refl refl refl refl old-Able refl reads_test refl

-- A world that counts the requests beside its clock.
abbrev Counted : Type 0
Counted = ℕ × ℕ

abbrev counted_http : Http Counted
counted_http = record {
  request_error = λ u. none;
  send = λ r w. ((suc w.0, w.1), reply 200 (complete (codes "https://config")));
  decode_config = λ b. decoded served;
  decode_notifications = λ b. decoded [];
  query_escape = λ t. t;
}

abbrev counted_machine : Machine Counted
counted_machine = record {
  time = λ w. w.1;
  read = λ w. (w, w.1);
  sleep = λ d w. (w.0, w.1 + d);
  out_of_range = λ n. pos 0;
  time-le-read = λ w. le_refl w.1;
  read-le-time = λ w. le_refl w.1;
  time-sleep = λ d w. le_refl (w.1 + d);
}

requests-Meter : Meter counted_http counted_machine (λ w. w.0)
requests-Meter = record { counts = λ r w. refl; reads = λ w. refl; sleeps = λ d w. refl }

requests_are_bounded_example :
    ((get_config_value ⦃http = counted_http⦄ ⦃m = counted_machine⦄
        (codes "app")
        (codes "color")
        (running, (0, 0))).0.1.0
      ≤ 0 + rounds (pos 3) * 2)
    × ((check_health ⦃http = counted_http⦄ ⦃m = counted_machine⦄ (running, (0, 0))).0.1.0
        ≤ 0 + rounds (pos 3) * (rounds (pos 3) * 2))
requests_are_bounded_example =
    requests_are_bounded ⦃http = counted_http⦄ ⦃m = counted_machine⦄ (λ w. w.0) requests-Meter
      (codes "app") (codes "color") running (0, 0) three refl

abbrev forth : Pairs
forth = (codes "color", codes "red") ∷ (codes "size", codes "9") ∷ []

abbrev back : Pairs
back = (codes "size", codes "9") ∷ (codes "color", codes "red") ∷ []

reload_order_is_free_example :
    handle_changes (codes "app") forth old ≡ handle_changes (codes "app") back old
reload_order_is_free_example =
    reload_order_is_free (codes "app") forth back old
      (Perm.swap (codes "size", codes "9") (codes "color", codes "red") [])
