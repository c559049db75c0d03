-- ===== src/Tests/Handle.antt =====
-- Start and Stop of a ConfigWatcher at concrete inputs.
use lynx_apollo.Base.{◌≡◌, refl, codes, true, false, [], ◌∷◌, some}
use lynx_apollo.Plugin.State.{ConfigWatcher}
use lynx_apollo.Plugin.Watching.{
  at_top, over, dispatch_step, plugin_watcher, new_config_watcher, set_on_error,
  set_on_config_changed, start_config_watcher, stop_config_watcher,
}
use lynx_apollo.Plugin.Watching.Silence.{stop_returns}
use lynx_apollo.Plugin.Watching.Handle.{
  Handle, HandleSteps, nothing, and_then, closes, reads, halts, returns, uncalled, halted,
  after_read, is_halting, after_halt, new_handle, started_late, stop_after_start,
  late_start_runs_on,
}
use lynx_apollo.Watcher.State.{
  ApolloConfigWatcher, new_apollo_config_watcher, stop_step, running, stopped,
}
use lynx_apollo.Watcher.Stopping.{run_loop, is_running}
use lynx_apollo.Tests.Client.{ready_client}
use lynx_apollo.Tests.Plugin.{running as plugin}
use lynx_apollo.Tests.Watcher.{watch_http, stop_now, polling_now, stopped_in_poll, few_steps}

abbrev watcher : ConfigWatcher
watcher = plugin_watcher 0 (codes "application") (some ready_client)

abbrev backing : ApolloConfigWatcher
backing = new_apollo_config_watcher (codes "application")

-- After Start.
abbrev launched : Handle
launched = record {
  watcher = start_config_watcher watcher;
  backing = some backing;
  stopping = uncalled;
}

abbrev halted_backing : ApolloConfigWatcher
halted_backing = stop_step (stop_step (stop_step backing))

-- After Start and Stop.
abbrev shut : Handle
shut = record {
  watcher = stop_config_watcher (start_config_watcher watcher);
  backing = some halted_backing;
  stopping = halted;
}

shutting : HandleSteps launched shut
unfolding after_read is_halting after_halt stop_step new_apollo_config_watcher
shutting =
    and_then
      (and_then
        (and_then
          (and_then (and_then (and_then nothing (closes refl)) (reads refl))
            (halts backing refl refl))
          (halts (stop_step backing) refl refl))
        (halts (stop_step (stop_step backing)) refl refl))
      (returns refl)

is_started : launched.watcher.started ≡ true
unfolding start_config_watcher plugin_watcher new_config_watcher set_on_error set_on_config_changed
is_started = refl

stop_after_start_example :
    (aw : ApolloConfigWatcher) × (shut.backing ≡ some aw) × (aw.stage ≡ stopped)
stop_after_start_example = stop_after_start launched shut backing is_started refl refl shutting refl

has_client : watcher.watcher_client ≡ some ready_client
unfolding plugin_watcher set_on_error set_on_config_changed
has_client = refl

not_started : watcher.started ≡ false
unfolding plugin_watcher new_config_watcher set_on_error set_on_config_changed
not_started = refl

late_start_runs_on_example :
    HandleSteps (new_handle watcher) (started_late watcher)
    × ((aw : ApolloConfigWatcher) × ((started_late watcher).backing ≡ some aw)
        × (aw.stage ≡ running)
        × ((started_late watcher).stopping ≡ halted))
late_start_runs_on_example =
    late_start_runs_on watcher ready_client (started_late watcher) has_client not_started nothing

-- The loop is in its poll, and the dispatch at its top.
stop_returns_example :
    let aw = (stop_now polling_now).watcher in
    let first = dispatch_step true (stop_config_watcher watcher) aw at_top plugin in
    (is_running
        (run_loop ⦃http = watch_http⦄
          (true ∷ true ∷ true ∷ true ∷ true ∷ true ∷ true ∷ [])
          (stop_now polling_now)).position
      ≡ false)
    × ((dispatch_step false (stop_config_watcher watcher) aw first.0.1 first.0.0).0.1 ≡ over)
stop_returns_example =
    stop_returns ⦃http = watch_http⦄ (true ∷ true ∷ true ∷ true ∷ true ∷ true ∷ true ∷ [])
      (stop_now polling_now) true false watcher (stop_now polling_now).watcher
      (stop_now polling_now).watcher at_top plugin stopped_in_poll few_steps stopped_in_poll
      stopped_in_poll
