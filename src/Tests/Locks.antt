-- ===== src/Tests/Locks.antt =====
-- Threads that take locks: theorems at concrete inputs, and races on fields that are also read without
-- their lock.
use lynx_apollo.Base.{
  ℕ, zero, suc, ◌≡◌, refl, ◌+◌, ◌⊎◌, inl, inr, Bool, true, false, if◌then◌else◌, List, [], ◌∷◌, map,
  Option, none, some, arith, ℕ_discrete,
}
use lynx_apollo.Locks.{
  health_check_ch, watchers_variable, cancel_watch, Action, write, peek, poke, Threads, can, move,
  begin, advance, holds, holds_exclusively, same, some_thread, held_by_some,
  held_exclusively_by_some,
}
use lynx_apollo.Locks.Code.{
  locked, each, launched, backed, check_round_code, get_config_value_code, check_health_code,
}
use lynx_apollo.Locks.Life.{cleanup_code, startup_code}
use lynx_apollo.Locks.Operations.{
  Operation, code, thread_of, joined, gets_config, forces_breaker, reads_breaker, gets_metrics,
  gets_config_sources, gets_config_value, watches_control_plane, watches_config, watches_source,
  cleans_up, retries_watch, watched, watch_config_code, retry_watch_code, checks_health,
  starts_watcher, stops_watcher,
}
use lynx_apollo.Locks.System.{Reach, here, next, moves, begins, no_threads, alone}
use lynx_apollo.Locks.Progress.{is_cons, finished, Moving}
use lynx_apollo.Locks.Return.{Moves, none_yet, one_more, left, operations_return}
use lynx_apollo.Locks.Order.{peeked, poked}
use lynx_apollo.Locks.Races.{no_race}
use lynx_apollo.Locks.Startup.{asks, startup_calling, startup_blocks_itself}

-- Two users of the breaker.
abbrev two_users : Threads
two_users = begin (thread_of reads_breaker) (begin (thread_of forces_breaker) no_threads)

two_users-Reach : Reach no_threads two_users
two_users-Reach = next (next here (begins forces_breaker)) (begins reads_breaker)

-- The first of them has the lock.
abbrev one_inside : Threads
one_inside = move 0 two_users

one_inside-Moves : Moves two_users 1 one_inside
unfolding can code thread_of locked held_by_some some_thread ℕ_discrete holds joined
one_inside-Moves = one_more 0 none_yet (omega arith) refl

one_inside-Reach : Reach no_threads one_inside
unfolding can code thread_of locked held_by_some some_thread ℕ_discrete holds joined
one_inside-Reach = next two_users-Reach (moves 0 (omega arith) refl)

operations_return_example :
    (1 + left one_inside.size one_inside.thread ≡ left two_users.size two_users.thread)
    × ((finished one_inside ≡ true) ⊎ Moving one_inside)
operations_return_example =
    operations_return two_users one_inside 1 two_users-Reach one_inside-Moves

-- The framework loads plugins, one of which asks for a source; the startup has the lock.
abbrev asked : Threads
asked = move 0 (alone (startup_calling [] true (code gets_config) false))

startup_blocks_itself_example : is_cons (asked.thread 0).todo ≡ true
unfolding can code locked startup_code held_by_some some_thread ℕ_discrete holds asks same
startup_blocks_itself_example =
    startup_blocks_itself [] true (code gets_config) false asked refl
      (next here (moves 0 (omega arith) refl))

-- The calls that take the lock of the plugin, and two that do not.
asking_operations :
    map
      (λ o. asks 0 (code o))
      (gets_config
        ∷ gets_metrics
        ∷ gets_config_sources (0 ∷ [])
        ∷ gets_config_value []
        ∷ checks_health false []
        ∷ watches_control_plane 1 false false
        ∷ watches_config 1 watched
        ∷ watches_source 1
        ∷ reads_breaker
        ∷ [])
    ≡ true ∷ true ∷ true ∷ true ∷ true ∷ true ∷ true ∷ false ∷ false ∷ []
unfolding asks code locked each same get_config_value_code check_health_code watch_config_code
asking_operations = refl

-- What a thread does next.
head : List Action → Option Action
head [] = none
head (a ∷ todo) = some a

-- The threads of some operations, the last one first.
started : List Operation → Threads
started [] = no_threads
started (o ∷ os) = begin (thread_of o) (started os)

-- The threads that move, in order, where they can.
run : List ℕ → Threads → Option Threads
run [] s = some s
run (i ∷ is) s = let rest = run is (move i s) in if can s (s.thread i).todo then rest else none

-- What the first two threads are at after such a run.
next_two : Option Threads → Option (Option Action × Option Action)
next_two none = none
next_two (some s) = some (head (s.thread 0).todo, head (s.thread 1).todo)

abbrev closing : Bool → Operation
closing has_channel =
    cleans_up
      (record { has_channel = has_channel; entries = []; has_client = true; has_breaker = true })

-- What a thread has left after that.
tail : List Action → List Action
tail [] = []
tail (a ∷ todo) = todo

-- A cleanup that stops the health check, and a retry of a watch that has its channel.
abbrev closing_beside : Threads
closing_beside = started (retries_watch true 1 watched ∷ closing true ∷ [])

closing_beside-Reach : Reach no_threads closing_beside
unfolding started
closing_beside-Reach =
    next (next here (begins (closing true))) (begins (retries_watch true 1 watched))

-- The states of the first seven moves of the cleanup.
abbrev moved : ℕ → Threads
moved zero = closing_beside
moved (suc n) = move 0 (moved n)

moved-Reach : Reach no_threads (moved 7)
unfolding started tail can code thread_of locked held_by_some held_exclusively_by_some some_thread
    ℕ_discrete holds joined retry_watch_code cleanup_code same advance holds_exclusively
moved-Reach =
    next
      (next
        (next
          (next
            (next
              (next (next (closing_beside-Reach) (moves 0 (omega arith) refl))
                (moves 0 (omega arith) refl))
              (moves 0 (omega arith) refl))
            (moves 0 (omega arith) refl))
          (moves 0 (omega arith) refl))
        (moves 0 (omega arith) refl))
      (moves 0 (omega arith) refl)

no_race_example :
    ((((moved 7).thread 1).todo ≡ peek health_check_ch ∷ (tail ((moved 7).thread 1).todo))
      × (peeked health_check_ch ≡ true))
    ⊎ ((((moved 7).thread 1).todo ≡ poke health_check_ch ∷ (tail ((moved 7).thread 1).todo))
        × (poked health_check_ch ≡ true))
unfolding started tail can code thread_of locked held_by_some held_exclusively_by_some some_thread
    ℕ_discrete holds joined retry_watch_code cleanup_code same advance holds_exclusively
no_race_example =
    no_race (moved 7) moved-Reach 0 1 (ground arith) health_check_ch
      (tail ((moved 7).thread 0).todo) (tail ((moved 7).thread 1).todo) refl (inr (inr (inl refl)))

-- So many moves of one thread, and then others.
turns : ℕ → ℕ → List ℕ → List ℕ
turns zero i is = is
turns (suc n) i is = i ∷ turns n i is

-- A retry reads the channel while the cleanup writes it.
channel_race :
    next_two (run (turns 7 0 []) (started (retries_watch true 1 watched ∷ closing true ∷ [])))
    ≡ some (some (write health_check_ch), some (peek health_check_ch))
unfolding next_two run head turns started can code thread_of locked held_by_some
    held_exclusively_by_some some_thread ℕ_discrete holds joined retry_watch_code cleanup_code same
    advance holds_exclusively
channel_race = refl

-- The health check reads the variable of the map of watchers while the cleanup writes it.
map_race :
    next_two (
      run (turns 13 1 (turns 8 0 [])) (
        started
          (checks_health true (record { attempts = []; passed = true } ∷ []) ∷ closing false ∷ [])))
    ≡ some (some (write watchers_variable), some (peek watchers_variable))
unfolding next_two run head turns started can code thread_of locked held_by_some
    held_exclusively_by_some some_thread ℕ_discrete holds joined check_health_code
    get_config_value_code check_round_code each cleanup_code same advance holds_exclusively
map_race = refl

-- Stop of a ConfigWatcher reads the cancel function while its Start writes it.
cancel_race :
    next_two (
      run
        (turns 10 0 (turns 5 1 []))
        (started (stops_watcher 1 (backed true) ∷ starts_watcher 1 launched ∷ [])))
    ≡ some (some (write (cancel_watch 1)), some (peek (cancel_watch 1)))
unfolding next_two run head turns started can code thread_of locked held_by_some
    held_exclusively_by_some some_thread ℕ_discrete holds joined same advance holds_exclusively
cancel_race = refl
