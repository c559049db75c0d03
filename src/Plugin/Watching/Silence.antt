-- ===== src/Plugin/Watching/Silence.antt =====
-- watchers.go: the dispatch, and the Stop of a ConfigWatcher.
use lynx_apollo.Base.{
  ◌≤◌, List, length, ◌≡◌, refl, Text, Bool, true, false, Option, none, some, arith,
}
use lynx_apollo.Plugin.State.{ConfigWatcher, PlugApollo}
use lynx_apollo.Plugin.Watching.{
  Spot, at_top, entering, selecting, over, dispatch_step, dispatch_polled, stop_config_watcher,
}
use lynx_apollo.Client.State.{Http}
use lynx_apollo.Watcher.Stopping.{run_loop, is_running, steps_left, stop_ends_loop}
use lynx_apollo.Watcher.State.{
  System, Pairs, ApolloConfigWatcher, new_apollo_config_watcher, stop_step, is_closed, select_next,
  StopStage, running, marked, cancel_done, stopped,
}

select_reports_nothing :
    (choice : Bool) (w : ConfigWatcher) (st : StopStage) (o : Option Pairs) (p : PlugApollo)
    → (is_closed st ≡ true → w.stopped ≡ true)
    → (dispatch_polled w (select_next choice st o) p).1 ≡ none
unfolding dispatch_polled select_next
select_reports_nothing true w stopped (some kvs) p h = ground (arith, h refl)
select_reports_nothing false w stopped (some kvs) p h = refl
select_reports_nothing choice w stopped none p h = ground (arith, h refl)
select_reports_nothing choice w running (some kvs) p h = refl
select_reports_nothing choice w running none p h = refl
select_reports_nothing choice w marked (some kvs) p h = refl
select_reports_nothing choice w marked none p h = refl
select_reports_nothing choice w cancel_done (some kvs) p h = refl
select_reports_nothing choice w cancel_done none p h = refl

dispatch_reports_nothing :
    (choice : Bool) (w : ConfigWatcher) (aw : ApolloConfigWatcher) (q : Spot) (p : PlugApollo)
    → (is_closed aw.stage ≡ true → w.stopped ≡ true)
    → (dispatch_step choice w aw q p).1 ≡ none
unfolding dispatch_step dispatch_polled select_next
dispatch_reports_nothing choice w aw at_top p h = refl
dispatch_reports_nothing choice w aw over p h = refl
dispatch_reports_nothing choice w aw entering p h = ground arith
dispatch_reports_nothing choice w aw selecting p h =
    select_reports_nothing choice w aw.stage aw.notify p h

-- Once Stop has closed the watcher's own channel and the ApolloConfigWatcher is stopped too, the
-- dispatch is over after two of its steps, whichever case its select takes, and whatever is in the channel at each.
dispatch_ends :
    (a b : Bool) (w : ConfigWatcher) (aw aw' : ApolloConfigWatcher) (q : Spot) (p : PlugApollo)
    → aw.stage ≡ stopped
    → aw'.stage ≡ stopped
    → let first = dispatch_step a (stop_config_watcher w) aw q p in
      (dispatch_step b (stop_config_watcher w) aw' first.0.1 first.0.0).0.1 ≡ over
unfolding dispatch_step dispatch_polled select_next stop_config_watcher
dispatch_ends a b w aw aw' at_top p h h' = ground arith
dispatch_ends a b w aw aw' entering p h h' = ground arith
dispatch_ends a b w aw aw' over p h h' = refl
dispatch_ends a b w aw aw' selecting p h h' = ground arith

-- What the two waits of ConfigWatcher.Stop wait for happens. Once the ApolloConfigWatcher is stopped,
-- its loop ends within a number of its own steps that its position bounds, and the dispatch within two
-- steps of its own, whichever cases their selects take and whatever the channel holds at each.
pub stop_returns :
    {W : Type 0} ⦃http : Http W⦄ (choices : List Bool) (s : System W) (a b : Bool)
    (w : ConfigWatcher) (aw aw' : ApolloConfigWatcher) (q : Spot) (p : PlugApollo)
    → s.watcher.stage ≡ stopped
    → steps_left s ≤ length choices
    → aw.stage ≡ stopped
    → aw'.stage ≡ stopped
    → let first = dispatch_step a (stop_config_watcher w) aw q p in
      (is_running (run_loop choices s).position ≡ false)
      × ((dispatch_step b (stop_config_watcher w) aw' first.0.1 first.0.0).0.1 ≡ over)
stop_returns choices s a b w aw aw' q p down few h h' =
    (stop_ends_loop choices s down few, dispatch_ends a b w aw aw' q p h h')

-- A ConfigWatcher with its ApolloConfigWatcher and its dispatch. `reported` says that the dispatch has
-- reported an error.
pub record Watch : Type 0 where
  pub watcher : ConfigWatcher
  pub backing : ApolloConfigWatcher
  pub spot : Spot
  pub plugin : PlugApollo
  pub reported : Option Bool

abbrev latest : Option Bool → Option Bool → Option Bool
latest none old = old
latest (some again) old = some again

abbrev dispatched : Watch → (PlugApollo × Spot) × Option Bool → Watch
dispatched s ((p, q), r) = record s { plugin = p; spot = q; reported = latest r s.reported }

-- A step. ConfigWatcher.Stop closes its own channel before it calls the Stop of the ApolloConfigWatcher,
-- which nobody else calls; the rest of the program may change all but how far that is.
pub data Move (s : Watch) : Watch → Type 0 where
  dispatches :
      (choice : Bool)
      → Move s (dispatched s (dispatch_step choice s.watcher s.backing s.spot s.plugin))
  stops : Move s (record s { watcher = stop_config_watcher s.watcher })
  stops_backing : s.watcher.stopped ≡ true → Move s (record s { backing = stop_step s.backing })
  others :
      (p : PlugApollo) (aw : ApolloConfigWatcher)
      → aw.stage ≡ s.backing.stage
      → Move s (record s { plugin = p; backing = aw })

pub data Moves (s : Watch) : Watch → Type 0 where
  still : Moves s s
  then : {t u : Watch} → Moves s t → Move t u → Moves s u

abbrev pub new_watch : ConfigWatcher → Text → PlugApollo → Watch
new_watch w namespace p = record {
  watcher = w;
  backing = new_apollo_config_watcher namespace;
  spot = at_top;
  plugin = p;
  reported = none;
}

abbrev Silent : Watch → Type 0
Silent s = (is_closed s.backing.stage ≡ true → s.watcher.stopped ≡ true) × (s.reported ≡ none)

step_reports_nothing :
    (choice : Bool) (s : Watch)
    → Silent s
    → (dispatched s (dispatch_step choice s.watcher s.backing s.spot s.plugin)).reported ≡ none
step_reports_nothing choice s h =
    ground (arith, dispatch_reports_nothing choice s.watcher s.backing s.spot s.plugin h.0)

Move-Silent : {s t : Watch} → Move s t → Silent s → Silent t
Move-Silent {s} (dispatches choice) h = (h.0, step_reports_nothing choice s h)
Move-Silent stops h = unfold stop_config_watcher in (λ e. refl, h.1)
Move-Silent (stops_backing down) h = (λ e. down, h.1)
Move-Silent {s} (others p aw same) h = (λ e. h.0 (ground arith), h.1)

Moves-Silent : {s t : Watch} → Moves s t → Silent s → Silent t
Moves-Silent still h = h
Moves-Silent (then a m) h = Move-Silent m (Moves-Silent a h)

-- The dispatch never reports an error, whatever it, Stop and the rest of the program do in any order:
-- handleConfigWatchError is not called, and no retry is launched.
pub dispatch_is_silent :
    (w : ConfigWatcher) (namespace : Text) (p : PlugApollo) (s : Watch)
    → Moves (new_watch w namespace p) s
    → s.reported ≡ none
dispatch_is_silent w namespace p s a =
    (Moves-Silent a (unfold new_apollo_config_watcher in (λ e. absurd (ground arith), refl))).1
