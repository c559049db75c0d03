-- ===== src/Watcher/System.antt =====
-- watcher_adapter.go: the loop beside the goroutines that start, stop and read the watcher, in any
-- order.
use lynx_apollo.Base.{◌≡◌, Text, Bool, [], ◌∷◌, ◌++◌, none}
use lynx_apollo.Client.State.{Client, Http}
use lynx_apollo.Watcher.State.{
  Pairs, Context, alive, new_apollo_config_watcher, unstarted, System, start_watcher, stop_step,
  delivered, select_next,
}
use lynx_apollo.Watcher.Loop.{loop_step}

module _ {W : Type 0} where
  -- A step of a goroutine in Stop.
  abbrev pub stop : System W → System W
  stop s = record s { watcher = stop_step s.watcher }

  -- The context of the caller of Start ends.
  abbrev pub end_context : Context → System W → System W
  end_context c s = record s { watcher = record s.watcher { context = c } }

  -- The select of a call of Next takes what is in the channel.
  abbrev pub receive : Pairs → System W → System W
  receive kvs s = record s {
    watcher = record s.watcher { notify = none };
    received = s.received ++ kvs ∷ [];
  }

  abbrev pub new_system : Text → Client → W → System W
  new_system namespace c w = record {
    watcher = new_apollo_config_watcher namespace;
    position = unstarted;
    client = c;
    world = w;
    reloads = [];
    sent = [];
    received = [];
  }

module _ {W : Type 0} ⦃http : Http W⦄ where
  -- One step of anyone. The rest of the program may change client and world as it likes.
  pub data Step (s : System W) : System W → Type 0 where
    loops : (choice : Bool) → Step s (loop_step choice s)
    starts : (parent : Context) → Step s (start_watcher parent s)
    stops : Step s (stop s)
    ends : (c : Context) → s.watcher.context ≡ alive → Step s (end_context c s)
    receives :
        (choice : Bool) (kvs : Pairs)
        → select_next choice s.watcher.stage s.watcher.notify ≡ delivered kvs
        → Step s (receive kvs s)
    others : (c : Client) (w : W) → Step s (record s { client = c; world = w })

  pub data Reach (s : System W) : System W → Type 0 where
    here : Reach s s
    next : {t u : System W} → Reach s t → Step t u → Reach s u
