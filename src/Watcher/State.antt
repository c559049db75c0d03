-- ===== src/Watcher/State.antt =====
-- watcher_adapter.go: `ApolloConfigWatcher`, where its loop stands, and the methods that other
-- goroutines call.
use lynx_apollo.Base.{
  ℕ, suc, ◌*◌, ◌==◌, Text, literal, Bool, true, false, List, Option, none, some, if◌then◌else◌, ℤ,
  pos, second,
}
use lynx_apollo.Errors.{GoError, plain}
use lynx_apollo.Client.State.{Client, Notification, Result}

-- The key-value pairs of one reload.
abbrev pub Pairs : Type 0
Pairs = List (Text × Text)

-- A context: alive, cancelled, or past its deadline.
pub data Context : Type 0 where
  alive canceled expired : Context

-- How far Stop has come: it sets `closed`, cancels the context, and closes `stopCh`.
pub data StopStage : Type 0 where
  running marked cancel_done stopped : StopStage

-- The contexts of a watcher are numbered; `context` is the state of the newest, `older` that of each
-- older one, on which Start called cancel when it replaced it. `notifyCh` holds one reload at most.
pub record ApolloConfigWatcher : Type 0 where
  pub namespace : Text
  pub notification_id : ℤ
  pub notification_timeout : ℕ
  pub generation : ℕ
  pub context : Context
  pub older : ℕ → Context
  pub stage : StopStage
  pub notify : Option Pairs

unfoldable pub new_apollo_config_watcher : Text → ApolloConfigWatcher
new_apollo_config_watcher namespace = record {
  namespace = namespace;
  notification_id = pos 0;
  notification_timeout = 60 * second;
  generation = 0;
  context = alive;
  older = λ g. canceled;
  stage = running;
  notify = none;
}

-- Where the loop stands. A number is the context that the loop took at its top; a list is what is left
-- of the notifications.
pub data Position : Type 0 where
  unstarted top backing_off finished : Position
  polling : ℕ → ℤ → Position
  answered : ℕ → Result (List Notification) → Position
  visiting reloading : ℕ → List Notification → Position
  sending : Pairs → ℕ → List Notification → Position

-- The watcher with its loop, the client that it shares with the plugin, and the world. `reloads`,
-- `sent` and `received` are the reloads that the loop got, that went into the channel and that came
-- out of it, oldest first.
pub record System (W : Type 0) : Type 0 where
  pub watcher : ApolloConfigWatcher
  pub position : Position
  pub client : Client
  pub world : W
  pub reloads : List Pairs
  pub sent : List Pairs
  pub received : List Pairs

abbrev pub is_stopped : StopStage → Bool
is_stopped stopped = true
is_stopped _ = false

-- atomic.LoadInt32(&w.closed) == 1
abbrev pub is_closed : StopStage → Bool
is_closed running = false
is_closed _ = true

abbrev pub is_canceled : Context → Bool
is_canceled canceled = true
is_canceled _ = false

-- What the cancel function of a context does: one that has ended keeps its error.
unfoldable pub cancel : Context → Context
cancel alive = canceled
cancel canceled = canceled
cancel expired = expired

-- The context numbered `g`.
unfoldable pub context_at : ApolloConfigWatcher → ℕ → Context
context_at w g = if g == w.generation then w.context else w.older g

-- errors.Is(watchCtx.Err(), context.Canceled), for the context numbered `g`
unfoldable pub context_canceled : ApolloConfigWatcher → ℕ → Bool
unfolding context_at
context_canceled w g = is_canceled (context_at w g)

unfoldable pub launched : Position → Position
launched unstarted = top
launched q = q

-- Start, in a context whose state is `parent`. It cancels the context that it replaces; those before
-- that have ended, and stay as they are. The loop is launched once.
unfoldable pub start_watcher : {W : Type 0} → Context → System W → System W
unfolding launched cancel context_at
start_watcher parent s = record s {
  watcher = record s.watcher {
    generation = suc s.watcher.generation;
    context = parent;
    older = λ g. cancel (context_at s.watcher g);
  };
  position = launched s.position;
}

-- One step of Stop.
unfoldable pub stop_step : ApolloConfigWatcher → ApolloConfigWatcher
unfolding cancel
stop_step w = elim w.stage [
  | running ↦ record w { stage = marked }
  | marked ↦ record w { stage = cancel_done; context = cancel w.context }
  | cancel_done ↦ record w { stage = stopped }
  | stopped ↦ w
]

abbrev pub watcher_stopped : GoError
watcher_stopped = plain (literal "watcher stopped")

-- What a call of Next comes to at once: a reload, an error, or nothing yet. Where a reload waits and
-- `stopCh` is closed, the select may take either; `choice` says which.
pub data Polled : Type 0 where
  delivered : Pairs → Polled
  failed : GoError → Polled
  waiting : Polled

unfoldable pub select_next : Bool → StopStage → Option Pairs → Polled
select_next choice stopped (some kvs) = if choice then failed watcher_stopped else delivered kvs
select_next choice stopped none = failed watcher_stopped
select_next choice _ (some kvs) = delivered kvs
select_next choice _ none = waiting

-- Next, to its end or to where it blocks
unfoldable pub next_result : Bool → ApolloConfigWatcher → Polled
unfolding select_next
next_result choice w =
    if is_closed w.stage then failed watcher_stopped else select_next choice w.stage w.notify
