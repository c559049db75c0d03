-- ===== src/Plugin/Watching/Handle.antt =====
-- watchers.go: Start and Stop of one ConfigWatcher, which different goroutines call. Start assigns
-- `apolloWatcher` once. Stop closes `stopCh`, reads `apolloWatcher`, and stops what it read.
use lynx_apollo.Base.{
  ℕ, suc, ◌≤◌, Bool, sym, subst, ◌≡◌, refl, true, false, Option, none, some, if◌then◌else◌, arith,
}
use lynx_apollo.Client.State.{Client}
use lynx_apollo.Plugin.State.{ConfigWatcher}
use lynx_apollo.Plugin.Watching.{start_config_watcher, stop_config_watcher}
use lynx_apollo.Watcher.State.{
  ApolloConfigWatcher, new_apollo_config_watcher, stop_step, running, marked, cancel_done, stopped,
  StopStage,
}

-- How far the one Stop that does anything has come: to the read of `apolloWatcher`, to the three steps
-- of the Stop of what it read, to the waits, or to its end.
pub data Stopping : Type 0 where
  uncalled closing marking canceling shutting awaiting halted : Stopping

-- Whether it is in the Stop of the ApolloConfigWatcher, and where it is after a step of that.
unfoldable pub is_halting : Stopping → Bool
is_halting marking = true
is_halting canceling = true
is_halting shutting = true
is_halting st = false

unfoldable pub after_halt : Stopping → Stopping
after_halt marking = canceling
after_halt canceling = shutting
after_halt shutting = awaiting
after_halt st = st

pub record Handle : Type 0 where
  pub watcher : ConfigWatcher
  pub backing : Option ApolloConfigWatcher
  pub stopping : Stopping

-- What Start assigns to `apolloWatcher`.
unfoldable pub attached : ConfigWatcher → Option ApolloConfigWatcher
attached w =
    if (start_config_watcher w).backed then some (new_apollo_config_watcher w.watched) else none

-- What Stop does after it has read `apolloWatcher`.
unfoldable pub after_read : Option ApolloConfigWatcher → Stopping
after_read none = halted
after_read (some aw) = marking

-- A step. The loop and the readers of the ApolloConfigWatcher change all but how far its Stop is.
pub data HandleStep (s : Handle) : Handle → Type 0 where
  starts :
      s.watcher.started ≡ false
      → HandleStep s
          (record s { watcher = start_config_watcher s.watcher; backing = attached s.watcher })
  closes :
      s.stopping ≡ uncalled
      → HandleStep s (record s { watcher = stop_config_watcher s.watcher; stopping = closing })
  reads : s.stopping ≡ closing → HandleStep s (record s { stopping = after_read s.backing })
  halts :
      (aw : ApolloConfigWatcher)
      → is_halting s.stopping ≡ true
      → s.backing ≡ some aw
      → HandleStep s (record s { backing = some (stop_step aw); stopping = after_halt s.stopping })
  returns : s.stopping ≡ awaiting → HandleStep s (record s { stopping = halted })
  others :
      (aw aw' : ApolloConfigWatcher)
      → s.backing ≡ some aw
      → aw'.stage ≡ aw.stage
      → HandleStep s (record s { backing = some aw' })

pub data HandleSteps (s : Handle) : Handle → Type 0 where
  nothing : HandleSteps s s
  and_then : {t u : Handle} → HandleSteps s t → HandleStep t u → HandleSteps s u

abbrev level : StopStage → ℕ
level running = 0
level marked = 1
level cancel_done = 2
level stopped = 3

-- The level that the ApolloConfigWatcher has reached where Stop is.
abbrev reached : Stopping → ℕ
reached canceling = 1
reached shutting = 2
reached awaiting = 3
reached halted = 3
reached st = 0

stop_step-level :
    (w : ApolloConfigWatcher) (n : ℕ)
    → n ≤ 2
    → n ≤ level w.stage
    → suc n ≤ level (stop_step w).stage
unfolding stop_step
stop_step-level w n small le = ground arith

after_halt-reached :
    (st : Stopping)
    → is_halting st ≡ true
    → (reached st ≤ 2) × (reached (after_halt st) ≡ suc (reached st))
unfolding is_halting after_halt
after_halt-reached uncalled h = absurd (ground arith)
after_halt-reached closing h = absurd (ground arith)
after_halt-reached marking h = (omega arith, refl)
after_halt-reached canceling h = (omega arith, refl)
after_halt-reached shutting h = (omega arith, refl)
after_halt-reached awaiting h = absurd (ground arith)
after_halt-reached halted h = absurd (ground arith)

after_read-reached :
    (o : Option ApolloConfigWatcher) (aw : ApolloConfigWatcher)
    → o ≡ some aw
    → reached (after_read o) ≡ 0
unfolding after_read
after_read-reached none aw e = absurd (ground arith)
after_read-reached (some w) aw e = refl

level-stopped : (st : StopStage) → 3 ≤ level st → st ≡ stopped
level-stopped running h = absurd (omega arith)
level-stopped marked h = absurd (omega arith)
level-stopped cancel_done h = absurd (omega arith)
level-stopped stopped h = refl

-- The ApolloConfigWatcher is there, and has come as far as Stop has.
abbrev Held : Handle → Type 0
Held s =
    (aw : ApolloConfigWatcher) × (s.backing ≡ some aw)
    × (reached s.stopping ≤ level aw.stage)
    × (s.watcher.started ≡ true)

step-Held : {s t : Handle} → HandleStep s t → Held s → Held t
unfolding start_config_watcher stop_config_watcher
step-Held {s} (starts idle) (aw, has, far, on) = absurd (ground arith)
step-Held {s} (closes free) (aw, has, far, on) = (aw, has, omega arith, on)
step-Held {s} (reads at) (aw, has, far, on) =
    (aw, has, omega (arith, after_read-reached s.backing aw has), on)
step-Held {s} (halts aw' at has') (aw, has, far, on) =
    let same : aw ≡ aw' = ground arith in
    let (small, more) = after_halt-reached s.stopping at in
    (
      stop_step aw',
      refl,
      omega (
        arith,
        more,
        stop_step-level aw' (reached s.stopping) small
            (subst (λ v. reached s.stopping ≤ level v.stage) same far),
      ),
      on,
    )
step-Held {s} (returns at) (aw, has, far, on) =
    (aw, has, subst (λ st. reached st ≤ level aw.stage) at far, on)
step-Held {s} (others aw' aw'' has' same) (aw, has, far, on) =
    let one : aw ≡ aw' = ground arith in
    (
      aw'',
      refl,
      subst (λ st. reached s.stopping ≤ level st) (sym same)
          (subst (λ v. reached s.stopping ≤ level v.stage) one far),
      on,
    )

steps-Held : {s t : Handle} → HandleSteps s t → Held s → Held t
steps-Held nothing h = h
steps-Held (and_then a m) h = step-Held m (steps-Held a h)

-- The ApolloConfigWatcher is there and runs, and Stop is through.
abbrev Missed : Handle → Type 0
Missed s =
    (aw : ApolloConfigWatcher) × (s.backing ≡ some aw)
    × (aw.stage ≡ running)
    × (s.stopping ≡ halted)
    × (s.watcher.started ≡ true)

step-Missed : {s t : Handle} → HandleStep s t → Missed s → Missed t
unfolding is_halting
step-Missed {s} (starts idle) (aw, has, runs, through, on) = absurd (ground arith)
step-Missed {s} (closes free) (aw, has, runs, through, on) = absurd (ground arith)
step-Missed {s} (reads at) (aw, has, runs, through, on) = absurd (ground arith)
step-Missed {s} (halts aw' at has') (aw, has, runs, through, on) = absurd (ground arith)
step-Missed {s} (returns at) (aw, has, runs, through, on) = absurd (ground arith)
step-Missed {s} (others aw' aw'' has' same) (aw, has, runs, through, on) =
    (aw'', refl, ground arith, through, on)

steps-Missed : {s t : Handle} → HandleSteps s t → Missed s → Missed t
steps-Missed nothing h = h
steps-Missed (and_then a m) h = step-Missed m (steps-Missed a h)

steps_trans : {s t u : Handle} → HandleSteps s t → HandleSteps t u → HandleSteps s u
steps_trans a nothing = a
steps_trans a (and_then b m) = and_then (steps_trans a b) m

-- A watcher that nobody has started or stopped, as WatchConfig puts it into the map.
abbrev pub new_handle : ConfigWatcher → Handle
new_handle w = record { watcher = w; backing = none; stopping = uncalled }

-- Stop, and then Start.
abbrev pub started_late : ConfigWatcher → Handle
started_late w = record {
  watcher = start_config_watcher (stop_config_watcher w);
  backing = attached (stop_config_watcher w);
  stopping = halted;
}

late_steps : (w : ConfigWatcher) → w.started ≡ false → HandleSteps (new_handle w) (started_late w)
unfolding after_read stop_config_watcher
late_steps w idle = and_then (and_then (and_then nothing (closes refl)) (reads refl)) (starts idle)

late-Missed :
    (w : ConfigWatcher) (c : Client)
    → w.watcher_client ≡ some c
    → w.started ≡ false
    → Missed (started_late w)
unfolding start_config_watcher attached stop_config_watcher new_apollo_config_watcher
late-Missed w c has idle =
    (new_apollo_config_watcher w.watched, ground arith, refl, refl, ground arith)

-- A Stop that is called after Start, whatever runs beside it in any order, has stopped the
-- ApolloConfigWatcher when it returns.
pub stop_after_start :
    (s t : Handle) (aw : ApolloConfigWatcher)
    → s.watcher.started ≡ true
    → s.backing ≡ some aw
    → s.stopping ≡ uncalled
    → HandleSteps s t
    → t.stopping ≡ halted
    → (aw' : ApolloConfigWatcher) × (t.backing ≡ some aw') × (aw'.stage ≡ stopped)
stop_after_start s t aw on has free a over =
    let (aw', has', far, on') =
      steps-Held a
        (aw, has, subst (λ st. reached st ≤ level aw.stage) (sym free) (omega arith), on) in
    (aw', has', level-stopped aw'.stage (subst (λ st. reached st ≤ level aw'.stage) over far))

-- Where a cleanup stops a watcher with a client before the WatchConfig that made it starts it, the Start launches
-- an ApolloConfigWatcher all the same, and nothing stops that, whatever happens later: Stop does its work once.
pub late_start_runs_on :
    (w : ConfigWatcher) (c : Client) (t : Handle)
    → w.watcher_client ≡ some c
    → w.started ≡ false
    → HandleSteps (started_late w) t
    → HandleSteps (new_handle w) t
      × ((aw : ApolloConfigWatcher) × (t.backing ≡ some aw)
          × (aw.stage ≡ running)
          × (t.stopping ≡ halted))
late_start_runs_on w c t has idle a =
    let (aw, backed, runs, through, on) = steps-Missed a (late-Missed w c has idle) in
    (steps_trans (late_steps w idle) a, (aw, backed, runs, through))
