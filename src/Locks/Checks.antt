-- ===== src/Locks/Checks.antt =====
-- The order of locks and the guards of fields, operation by operation.
use lynx_apollo.Base.{ℕ, zero, suc, ◌≡◌, refl, Bool, true, false, List, [], ◌∷◌, append-nil, sym}
use lynx_apollo.Locks.{
  exclusive, shared, Hold, Action, release, client_mu, adapter_mu, launch_once, watcher_mutex,
  close_once, dispatching, looping,
}
use lynx_apollo.Locks.Order.{below, checks}
use lynx_apollo.Locks.Fits.{Fits, nil, append, every, fitting, rising}
use lynx_apollo.Locks.Code.{
  each, Lookup, closed, known, unresolved, resolved, get_config_server_code, read_client,
  get_metrics_code, Reading, clientless, hit, requested, read_value_code, Attempt, rejected,
  admitted, attempt_code, get_config_value_code, Round, check_round_code, check_health_code,
  start_adapter_code, stop_adapter_code, Starting, started, clientless_start, failed_start,
  launched, start_watcher_code, Halting, stopped_before, unbacked, backed, stop_watcher_code,
}
use lynx_apollo.Locks.Life.{
  stop_entry_code, cleanup_watchers_code, Entry, Cleaning, cleanup_code, cleanup_stats_code,
  startup_code, goes,
}
use lynx_apollo.Locks.Operations.{
  deliver_code, reload_code, Watching, watched, overtaken, registers, watch_config_code,
  retry_watch_code, changes_code, dispatch_loop_code, Poll, poll_code, Operation, gets_config,
  gets_metrics, gets_cleanup_stats, gets_config_sources, gets_config_value, checks_health,
  watches_control_plane, loads_source, watches_source, watches_config, retries_watch, sets_callback,
  starts_watcher, stops_watcher, stops_adapter, reads_breaker, measures_breaker, forces_breaker,
  cleans_up, starts_up, initializes, dispatches, polls, code, joined,
}

get_config_server_code-Fits :
    {hs : List Hold} → below client_mu hs ≡ true → (l : Lookup) → Fits hs (get_config_server_code l)
get_config_server_code-Fits low closed = nil
get_config_server_code-Fits low known = search fitting depth 20
get_config_server_code-Fits low unresolved = search fitting depth 20
get_config_server_code-Fits low resolved = search fitting depth 20

read_value_code-Fits : (r : Reading) → Fits [] (read_value_code r)
unfolding below
read_value_code-Fits clientless = nil
read_value_code-Fits hit = search fitting depth 20
read_value_code-Fits (requested true l b made) =
    search (fitting, get_config_server_code-Fits) depth 20
read_value_code-Fits (requested false l b made) =
    search (fitting, get_config_server_code-Fits) depth 20

attempt_code-Fits : (a : Attempt) → Fits [] (attempt_code a)
unfolding below
attempt_code-Fits rejected = search fitting depth 20
attempt_code-Fits (admitted probe r) = search (fitting, read_value_code-Fits) depth 20

get_config_value_code-Fits : (attempts : List Attempt) → Fits [] (get_config_value_code attempts)
unfolding below get_config_value_code
get_config_value_code-Fits attempts = search (fitting, every, attempt_code-Fits) depth 20

check_round_code-Fits : (r : Round) → Fits [] (check_round_code r)
unfolding below check_round_code
check_round_code-Fits r = search (fitting, get_config_value_code-Fits) depth 20

check_health_code-Fits : (b : Bool) (rs : List Round) → Fits [] (check_health_code b rs)
unfolding below check_health_code
check_health_code-Fits b rs = search (fitting, every, check_round_code-Fits) depth 20

start_adapter_code-Fits :
    {hs : List Hold} (n : ℕ)
    → below (adapter_mu n) hs ≡ true
    → below (launch_once n) hs ≡ true
    → Fits hs (start_adapter_code n)
start_adapter_code-Fits n low low' = search fitting depth 20

start_watcher_code-Fits : (n : ℕ) (s : Starting) → Fits [] (start_watcher_code n s)
unfolding below
start_watcher_code-Fits n started = search fitting depth 20
start_watcher_code-Fits n clientless_start = search fitting depth 20
start_watcher_code-Fits n failed_start = search fitting depth 20
start_watcher_code-Fits n launched = search fitting depth 20

stop_adapter_code-Fits : (n : ℕ) (b : Bool) → Fits [] (stop_adapter_code n b)
unfolding below
stop_adapter_code-Fits n b = search fitting depth 20

stop_watcher_code-Fits :
    {hs : List Hold} (n : ℕ)
    → below close_once hs ≡ true
    → (s : Halting) → Fits hs (stop_watcher_code n s)
stop_watcher_code-Fits n low stopped_before = search rising depth 20
stop_watcher_code-Fits n low unbacked = search rising depth 20
stop_watcher_code-Fits n low (backed b) = search rising depth 20

get_metrics_code-Fits : Fits [] get_metrics_code
unfolding below
get_metrics_code-Fits = search fitting depth 20

watch_config_code-Fits : (n : ℕ) (w : Watching) → Fits [] (watch_config_code n w)
unfolding below watch_config_code
watch_config_code-Fits n watched = search fitting depth 20
watch_config_code-Fits n overtaken = search (fitting, stop_watcher_code-Fits) depth 20
watch_config_code-Fits n (registers s) = search (fitting, start_watcher_code-Fits) depth 20

retry_watch_code-Fits : (b : Bool) (n : ℕ) (w : Watching) → Fits [] (retry_watch_code b n w)
unfolding below retry_watch_code
retry_watch_code-Fits b n w = search (fitting, watch_config_code-Fits) depth 20

changes_code-Fits :
    (n k : ℕ) → Fits (record { mode = shared; resource = dispatching n } ∷ []) (changes_code k)
unfolding below changes_code
changes_code-Fits n zero = nil
changes_code-Fits n (suc k) = append (search fitting depth 20) (changes_code-Fits n k)

deliver_code-Fits :
    (n k : ℕ) → Fits (record { mode = shared; resource = dispatching n } ∷ []) (deliver_code n k)
unfolding below
deliver_code-Fits n k = search (fitting, changes_code-Fits) depth 20

dispatch_loop_code-Fits :
    (n : ℕ) (ks : List ℕ) (b : Bool)
    → Fits (record { mode = shared; resource = dispatching n } ∷ []) (dispatch_loop_code n ks b)
unfolding below dispatch_loop_code
dispatch_loop_code-Fits n ks b = search (fitting, every, deliver_code-Fits) depth 20

reload_code-Fits :
    (n : ℕ) (l : Lookup)
    → Fits (record { mode = shared; resource = looping n } ∷ []) (reload_code n l)
unfolding below
reload_code-Fits n l = search (fitting, get_config_server_code-Fits) depth 20

poll_code-Fits :
    (n : ℕ) (p : Poll) → Fits (record { mode = shared; resource = looping n } ∷ []) (poll_code n p)
unfolding below poll_code
poll_code-Fits n p = search (fitting, every, get_config_server_code-Fits, reload_code-Fits) depth 20

stop_entry_code-Fits :
    (e : Entry)
    → Fits (record { mode = exclusive; resource = watcher_mutex } ∷ []) (stop_entry_code e)
unfolding below
stop_entry_code-Fits e = stop_watcher_code-Fits e.watcher refl e.stopping

cleanup_watchers_code-Fits : (es : List Entry) → Fits [] (cleanup_watchers_code es)
unfolding below
cleanup_watchers_code-Fits es = search (fitting, every, stop_entry_code-Fits) depth 20

cleanup_code-Fits : (c : Cleaning) → Fits [] (cleanup_code c)
unfolding below cleanup_code
cleanup_code-Fits c = search (fitting, cleanup_watchers_code-Fits) depth 30

startup_code-Fits : (b c : Bool) → Fits [] (startup_code (goes [] b [] c))
unfolding below startup_code
startup_code-Fits b c = search fitting depth 40

alone-Fits : (c : List Action) → Fits [] c → checks [] c ≡ true
unfolding checks
alone-Fits c f = rw (sym (append-nil c)) (f.fits [] refl)

pub code-checks : (o : Operation) → checks (joined o) (code o) ≡ true
unfolding below joined code checks
code-checks gets_config = alone-Fits read_client (search fitting depth 20)
code-checks gets_metrics = alone-Fits get_metrics_code get_metrics_code-Fits
code-checks gets_cleanup_stats = alone-Fits cleanup_stats_code (search fitting depth 20)
code-checks (gets_config_sources ns) =
    alone-Fits (each (λ n. read_client) ns) (every (λ n. search fitting depth 20) ns)
code-checks (gets_config_value attempts) =
    alone-Fits (get_config_value_code attempts) (get_config_value_code-Fits attempts)
code-checks (checks_health b rounds) =
    alone-Fits (check_health_code b rounds) (check_health_code-Fits b rounds)
code-checks (watches_control_plane n begun ended) =
    alone-Fits (code (watches_control_plane n begun ended))
      (search (fitting, start_adapter_code-Fits, stop_adapter_code-Fits) depth 20)
code-checks (loads_source l) =
    alone-Fits (get_config_server_code l) (get_config_server_code-Fits refl l)
code-checks (watches_source n) =
    alone-Fits (start_adapter_code n) (start_adapter_code-Fits n refl refl)
code-checks (watches_config n w) = alone-Fits (watch_config_code n w) (watch_config_code-Fits n w)
code-checks (retries_watch b n w) =
    alone-Fits (retry_watch_code b n w) (retry_watch_code-Fits b n w)
code-checks (sets_callback n b) = alone-Fits (code (sets_callback n b)) (search fitting depth 20)
code-checks (starts_watcher n s) = alone-Fits (start_watcher_code n s) (start_watcher_code-Fits n s)
code-checks (stops_watcher n s) =
    alone-Fits (stop_watcher_code n s) (stop_watcher_code-Fits n refl s)
code-checks (stops_adapter n b) = alone-Fits (stop_adapter_code n b) (stop_adapter_code-Fits n b)
code-checks reads_breaker = alone-Fits (code reads_breaker) (search fitting depth 20)
code-checks measures_breaker = alone-Fits (code measures_breaker) (search fitting depth 20)
code-checks forces_breaker = alone-Fits (code forces_breaker) (search fitting depth 20)
code-checks (cleans_up c) = alone-Fits (cleanup_code c) (cleanup_code-Fits c)
code-checks (initializes b) = alone-Fits (code (initializes b)) (search fitting depth 20)
code-checks (starts_up b c) = alone-Fits (code (starts_up b c)) (startup_code-Fits b c)
code-checks (dispatches n ks b) = (dispatch_loop_code-Fits n ks b).fits (release ∷ []) refl
code-checks (polls n ps) = (every (poll_code-Fits n) ps).fits (release ∷ []) refl
